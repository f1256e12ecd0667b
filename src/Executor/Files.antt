-- ===== src/Executor/Files.antt =====
-- internal/executor/file_exists.go, checksum.go, copy_file.go and write_file.go: what `Execute` does
-- with a job on a machine.
use golang_assignment.Prelude.{
  ◌-◌, ◌+◌, ℕ, ◌*◌, ◌/◌, ◌%◌, ◌^◌, String, true, false, not, ◌&&◌, Option, none, some, List, [],
  ◌∷◌, ◌++◌, ◌==◌, if◌then◌else◌, length, is_some,
}
use golang_assignment.Prelude.Int.{pos, negsuc}
use golang_assignment.Prelude.Result.{Result, ok, err}
use golang_assignment.GoMap.{lookup}
use golang_assignment.GoText.{concat, decimal, to_base}
use golang_assignment.Model.Entity.{Job}
use golang_assignment.Model.Status.{success, failed}
use golang_assignment.Model.Value.{Value, Payload, Float64, bool, number, int, str, string_or_empty}
use golang_assignment.Api.Jobs.{hex}
use golang_assignment.Executor.{ExecutionResult}
use golang_assignment.Executor.Machine.{
  Machine, Node, Stat, stat, found, not_exist, failing, open_file, create_file, read_file,
  copy_bytes, write_file, bytes,
}

-- job.Payload[key]; a nil map has no keys
abbrev pub payload_value : String → Job → Option Value
payload_value key job = elim job.payload [ none ↦ none | some fields ↦ lookup key fields ]

abbrev pub payload_string : String → Job → String
payload_string key job = string_or_empty (payload_value key job)

abbrev pub failure : List String → String → ExecutionResult
failure logs error = record { status = failed; logs = logs; result = none; error = error }

abbrev pub failure_with : List String → String → Payload → ExecutionResult
failure_with logs error result = record {
  status = failed;
  logs = logs;
  result = some result;
  error = error;
}

abbrev pub completed : List String → Payload → ExecutionResult
completed logs result = record { status = success; logs = logs; result = some result; error = "" }

abbrev pub canceled_operation : List String → String → ExecutionResult
canceled_operation logs e = failure (logs ++ "operation canceled" ∷ []) e

abbrev pub missing_path : ExecutionResult
missing_path = failure ("payload.path is required" ∷ []) "missing path in payload"

unfoldable pub stat_result : List String → Stat → ExecutionResult
stat_result logs not_exist =
    failure_with (logs ++ "file does not exist" ∷ []) "file not found" (("exists", bool false) ∷ [])
stat_result logs (failing e) = failure (logs ++ concat ("stat error: " ∷ e ∷ []) ∷ []) e
stat_result logs (found node) =
    completed
      (logs
        ++ concat ("file exists — size: " ∷ decimal (pos (length node.content)) ∷ " bytes" ∷ [])
          ∷ [])
      (("exists", bool true)
        ∷ ("size", int (pos (length node.content)))
        ∷ ("is_dir", bool node.is_dir)
        ∷ ("mod_time", str node.mod_time)
        ∷ [])

unfoldable pub execute_file_exists : Job → Machine → ExecutionResult × Machine
unfolding stat_result
execute_file_exists job h =
    let path = payload_string "path" job in
    let logs = concat ("checking if file exists: " ∷ path ∷ []) ∷ [] in
    if path == "" then (missing_path, h) else elim h.done [
      | some e ↦ (canceled_operation logs e, h)
      | none ↦ (stat_result logs (stat path h), h)
    ]

-- the comparison with payload.expected_checksum
unfoldable pub compared : List String → String → Option Value → ExecutionResult
compared logs checksum expected =
    let wanted = string_or_empty expected in
    let result =
      completed (logs ++ (if wanted == "" then [] else "checksum matches expected value" ∷ []))
        (("checksum", str checksum) ∷ ("algorithm", str "sha256") ∷ []) in
    if not (wanted == "") && not (checksum == wanted)
    then failure_with (logs ++ concat ("mismatch: expected " ∷ wanted ∷ []) ∷ [])
        "checksum mismatch"
        (("checksum", str checksum) ∷ ("expected", str wanted) ∷ ("match", bool false) ∷ [])
    else result

unfoldable pub checksum_result : List String → String → Job → Machine → ExecutionResult
unfolding compared
checksum_result logs path job h = elim (open_file path h) [
  | err e ↦ failure (logs ++ concat ("failed to open file: " ∷ e ∷ []) ∷ []) e
  | ok node ↦ elim (read_file path h) [
    | err e ↦ failure (logs ++ concat ("failed to read file: " ∷ e ∷ []) ∷ []) e
    | ok content ↦
        let checksum = hex (h.sha256 content) in
        compared (logs ++ concat ("checksum: " ∷ checksum ∷ []) ∷ []) checksum
          (payload_value "expected_checksum" job)
  ]
]

unfoldable pub execute_checksum : Job → Machine → ExecutionResult × Machine
unfolding checksum_result
execute_checksum job h =
    let path = payload_string "path" job in
    let logs = concat ("computing SHA-256 checksum for: " ∷ path ∷ []) ∷ [] in
    if path == "" then (missing_path, h) else elim h.done [
      | some e ↦ (canceled_operation logs e, h)
      | none ↦ (checksum_result logs path job h, h)
    ]

unfoldable pub copy_result : List String → Result ℕ × Machine → ExecutionResult × Machine
copy_result logs (err e, h) = (failure (logs ++ concat ("copy failed: " ∷ e ∷ []) ∷ []) e, h)
copy_result logs (ok n, h) = (
  completed (logs ++ concat ("copied " ∷ decimal (pos n) ∷ " bytes successfully" ∷ []) ∷ [])
      (("bytes_copied", int (pos n)) ∷ []),
  h,
)

unfoldable pub copy_into :
    List String → String → String → Result (Unit {0}) × Machine → ExecutionResult × Machine
unfolding copy_result
copy_into logs source destination (err e, h) =
    (failure (logs ++ concat ("failed to create destination: " ∷ e ∷ []) ∷ []) e, h)
copy_into logs source destination (ok _, h) = copy_result logs (copy_bytes destination source h)

unfoldable pub copy_opened :
    List String → String → String → Result Node → Machine → ExecutionResult × Machine
unfolding copy_into
copy_opened logs source destination (err e) h =
    (failure (logs ++ concat ("failed to open source: " ∷ e ∷ []) ∷ []) e, h)
copy_opened logs source destination (ok _) h =
    copy_into logs source destination (create_file destination h)

unfoldable pub execute_copy_file : Job → Machine → ExecutionResult × Machine
unfolding copy_opened
execute_copy_file job h =
    let source = payload_string "source" job in
    let destination = payload_string "destination" job in
    let logs = concat ("copying " ∷ source ∷ " → " ∷ destination ∷ []) ∷ [] in
    if source == ""
    then (failure ("payload.source is required" ∷ []) "missing source in payload", h)
    else if destination == ""
    then (failure ("payload.destination is required" ∷ []) "missing destination in payload", h)
    else elim h.done [
      | some e ↦ (canceled_operation logs e, h)
      | none ↦ copy_opened logs source destination (open_file source h) h
    ]

-- int(v) of a float64 within the range of int: towards 0
abbrev pub truncated : Float64 → ℕ
truncated v = elim v.exponent [ pos e ↦ v.mantissa * 2 ^ e | negsuc e ↦ v.mantissa / 2 ^ (e + 1) ]

-- os.FileMode(int(v)): 32 bits
unfoldable pub file_mode : Option Value → ℕ
file_mode (some (number v)) =
    let n = truncated v % 2 ^ 32 in if v.negative then (2 ^ 32 - n) % 2 ^ 32 else n
file_mode _ = 420

unfoldable pub write_result :
    List String → String → List ℕ → Result (Unit {0}) × Machine → ExecutionResult × Machine
write_result logs path content (err e, h) =
    (failure (logs ++ concat ("write failed: " ∷ e ∷ []) ∷ []) e, h)
write_result logs path content (ok _, h) = (
  completed (logs ++ "file written successfully" ∷ [])
      (("bytes_written", int (pos (length content))) ∷ ("path", str path) ∷ []),
  h,
)

-- the permissions of a new file are not modelled; the mode is in the log
unfoldable pub execute_write_file : Job → Machine → ExecutionResult × Machine
unfolding file_mode write_result
execute_write_file job h =
    let path = payload_string "path" job in
    let content = bytes (payload_string "content" job) in
    let logs =
      concat (
        "writing "
        ∷ decimal (pos (length content))
        ∷ " bytes to "
        ∷ path
        ∷ " (mode: "
        ∷ to_base 8 (file_mode (payload_value "mode" job))
        ∷ ")"
        ∷ [])
      ∷ [] in
    if path == ""
    then (missing_path, h)
    else if not (is_some (payload_value "content" job))
    then (failure ("payload.content is required" ∷ []) "missing content in payload", h)
    else elim h.done [
      | some e ↦ (canceled_operation logs e, h)
      | none ↦ write_result logs path content (write_file path content h)
    ]
