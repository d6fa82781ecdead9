-- ===== src/Manifest/Files.antt =====
-- The files of a small site, as pipeline/release/release-manifest.mjs reads them.
use Prim.Native.String.{String}
use qed.Common.{ℕ}
use qed.Common.Int.{pos}
use qed.Common.Json.{Json, num, str, arr, obj, nil, cons, end, field}
use qed.Manifest.Record.{Node}
use qed.Manifest.Tests.{sha_a, hosting_json, kernel_json, pack_json}

abbrev pub node : Node
node = record { sha256 = λ _. sha_a; pretty = λ _. "{}"; compact = λ _. "{}" }

abbrev sized_file : String → ℕ → Json
sized_file path n =
    obj (field "path" (str path) (field "bytes" (num (pos n)) (field "sha256" (str sha_a) end)))

abbrev pub record_json : Json
record_json = obj (
    field "schema" (str "lean4-wasm64.release/v1") (
      field "digest" (str "sha256:aaaaaaaaaaaaaaaaaaaaaaaaaaaaaaaaaaaaaaaaaaaaaaaaaaaaaaaaaaaaaaaa")
        (field "id" (str "lean-v4.22.0-abc") (
          field "kernel" kernel_json (
            field "runtime" (obj (field "buildId" (str "wasm64-0123456789abcdef") end)) (
              field "packs" (arr (cons pack_json nil)) (
                field "tools"
                  (obj (
                    field "package" (str "p")
                      (field "version" (str "1") (field "tgz" (str "t") end))))
                  (field "hosting" hosting_json (
                    field "files"
                      (arr (
                        cons (sized_file "runtime/runtime-manifest.json" 5) (
                          cons
                            (sized_file "runtime/runtime-manifest.wasm64-0123456789abcdef.json" 5)
                            (cons (sized_file "runtime/chunks/lean.aaaaaaaaaaaaaaaa" 7) (
                              cons (sized_file "profiles/init.json" 5)
                                (cons (sized_file "profiles/init.aaaaaaaaaaaaaaaa" 4) nil))))))
                      end)))))))))

abbrev chunk_json : Json
chunk_json = obj (
    field "url" (str "/runtime/chunks/lean.aaaaaaaaaaaaaaaa")
      (field "sha256" (str sha_a) (field "bytes" (num (pos 7)) end)))

abbrev pub runtime_json : Json
runtime_json = obj (
    field "schema" (str "org.lean-browser64.runtime/v1") (
      field "buildId" (str "wasm64-0123456789abcdef") (
        field "leanVersion" (str "4.22.0") (
          field "target" (str "wasm64") (
            field "sourceRevision" (str "qed64-wasm64@0123456 clean") (
              field "files"
                (obj (
                  field "lean.wasm"
                    (obj (
                      field "sha256" (str sha_a) (
                        field "bytes" (num (pos 7))
                          (field "chunks" (arr (cons chunk_json nil)) end))))
                    end))
                end))))))

abbrev snapshot_json : Json
snapshot_json = obj (
    field "name" (str "init") (
      field "url" (str "/snapshots/init.aaaaaaaaaaaaaaaa") (
        field "digest"
          (str "sha256:aaaaaaaaaaaaaaaaaaaaaaaaaaaaaaaaaaaaaaaaaaaaaaaaaaaaaaaaaaaaaaaa")
          (field "transfer" (num (pos 3)) (
            field "bytes" (num (pos 8)) (
              field "imports" (arr (cons (str "Init") nil))
                (field "runtime" (str "wasm64-0123456789abcdef") end)))))))

abbrev pub snapshots_json : Json
snapshots_json = obj (
    field "schema" (str "qed64.snapshot-index/v1")
      (field "snapshots" (arr (cons snapshot_json nil)) end))

abbrev pub profiles_json : Json
profiles_json = obj (
    field "schema" (str "qed64.profile-index/v1") (
      field "runtime"
        (obj (
          field "buildId" (str "wasm64-0123456789abcdef") (field "leanVersion" (str "4.22.0") end)))
        (field "profiles"
          (arr (
            cons
              (obj (
                field "id" (str "core") (
                  field "manifest" (str "/profiles/init.json")
                    (field "modules" (num (pos 1)) end))))
              nil))
          end)))

abbrev part_json : Json
part_json = obj (
    field "url" (str "/profiles/init.aaaaaaaaaaaaaaaa") (
      field "digest" (str "sha256:aaaaaaaaaaaaaaaaaaaaaaaaaaaaaaaaaaaaaaaaaaaaaaaaaaaaaaaaaaaaaaaa")
        (field "byteLength" (num (pos 4)) end)))

abbrev content_json : Json
content_json = obj (
    field "lean" (obj (field "version" (str "4.22.0") end)) (
      field "modules" (obj (field "Init" (str "x") end)) (
        field "pack"
          (obj (
            field "digest"
              (str "sha256:aaaaaaaaaaaaaaaaaaaaaaaaaaaaaaaaaaaaaaaaaaaaaaaaaaaaaaaaaaaaaaaa")
              (field "byteLength" (num (pos 9)) (
                field "transport"
                  (obj (
                    field "digest"
                      (str
                        "sha256:aaaaaaaaaaaaaaaaaaaaaaaaaaaaaaaaaaaaaaaaaaaaaaaaaaaaaaaaaaaaaaaa")
                      (field "byteLength" (num (pos 4))
                        (field "parts" (arr (cons part_json nil)) end))))
                  end))))
          end)))

abbrev pub pack_manifest_json : Json
pack_manifest_json = obj (
    field "format" (str "browser64.artifact-manifest") (
      field "digest" (str "sha256:aaaaaaaaaaaaaaaaaaaaaaaaaaaaaaaaaaaaaaaaaaaaaaaaaaaaaaaaaaaaaaaa")
        (field "content" content_json end)))
