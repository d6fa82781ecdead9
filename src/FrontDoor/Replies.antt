-- ===== src/FrontDoor/Replies.antt =====
-- The fixed answers of public/workers/lsp-front-door.js.
use qed.Common.{String, Bool, true, false, Option, none, some, List, [], ◌∷◌, if◌then◌else◌}
use qed.Common.Int.{pos, negsuc}
use qed.Common.Json.{Json, Items, Fields, null, bool, num, str, arr, obj, nil, cons, end, field}

-- The field, unless its value is `undefined`.
abbrev pub optional : String → Option Json → Fields → Fields
optional k none fs = fs
optional k (some v) fs = field k v fs

-- `SERVER_CAPABILITIES`
abbrev yes_field : String → Fields → Fields
yes_field k fs = field k (bool true) fs

abbrev strings : List String → Items
strings [] = nil
strings (s ∷ ss) = cons (str s) (strings ss)

abbrev server_capabilities : Json
server_capabilities = obj (
    field "textDocumentSync"
      (obj (
        yes_field "openClose" (
          field "change" (num (pos 1)) (
            field "willSave" (bool false) (
              field "willSaveWaitUntil" (bool false)
                (field "save" (obj (yes_field "includeText" end)) end))))))
      (field "completionProvider"
        (obj
          (field "triggerCharacters" (arr (strings ("." ∷ []))) (yes_field "resolveProvider" end)))
        (yes_field "hoverProvider" (
          yes_field "declarationProvider" (
            yes_field "definitionProvider" (
              yes_field "typeDefinitionProvider" (
                yes_field "referencesProvider" (
                  yes_field "callHierarchyProvider" (
                    field "renameProvider" (obj (yes_field "prepareProvider" end)) (
                      yes_field "workspaceSymbolProvider" (
                        yes_field "documentHighlightProvider" (
                          yes_field "documentSymbolProvider" (
                            yes_field "foldingRangeProvider" (
                              field "semanticTokensProvider"
                                (obj (
                                  field "legend"
                                    (obj (
                                      field "tokenTypes"
                                        (arr (
                                          strings (
                                            "keyword" ∷ "variable" ∷ "property" ∷ "function"
                                            ∷ "namespace" ∷ "type" ∷ "enumMember" ∷ "comment"
                                            ∷ [])))
                                        (field "tokenModifiers" (arr nil) end)))
                                    (yes_field "full" (yes_field "range" end))))
                                (field "codeActionProvider"
                                  (obj (
                                    yes_field "resolveProvider" (
                                      field "codeActionKinds"
                                        (arr (
                                          strings (
                                            "quickfix" ∷ "refactor" ∷ "source.organizeImports"
                                            ∷ [])))
                                        end)))
                                  (field "inlayHintProvider"
                                    (obj (field "resolveProvider" (bool false) end))
                                    end))))))))))))))))

-- `{jsonrpc: "2.0", id, …}`
abbrev pub response : Option Json → Fields → Json
response id rest = obj (field "jsonrpc" (str "2.0") (optional "id" id rest))

unfoldable pub initialize_response : Option Json → Json
initialize_response id = response id (
    field "result"
      (obj (
        field "capabilities" server_capabilities (
          field "serverInfo"
            (obj
              (field "name" (str "QED64 wasm64 Lean Server") (field "version" (str "0.1.0") end)))
            end)))
      end)

abbrev pub shutdown_response : Option Json → Json
shutdown_response id = response id (field "result" null end)

-- ContentModified, in the two wordings.
unfoldable pub completion_refused : Bool → Option Json → Json
completion_refused on_import id = response id (
    field "error"
      (obj (
        field "code" (num (negsuc 32800)) (
          field "message"
            (str (
              if on_import
              then "QED64: import-path completion is answered client-side; the worker has no module inventory"
              else "QED64: the header is unresolved; completion is unavailable until it resolves"))
            end)))
      end)
