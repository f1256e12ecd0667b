-- ===== src/Executor/Machine.antt =====
-- What the file executors use of the package `os` and of `io.Copy`: files and directories, and the paths
-- that name them. Two paths name one file if `locate` says so: that "a", "./a" and a link to it do is what
-- the system makes of paths, which no executor changes. A copy that fails has not written anything.
use Prim.Native.Char.{code}
use golang_assignment.Prelude.{
  ℕ, ◌+◌, ◌/◌, ◌%◌, String, Bool, false, Option, none, some, List, [], ◌∷◌, ◌++◌, if◌then◌else◌,
  ltb, length,
}
use golang_assignment.Prelude.Result.{Result, ok, err}
use golang_assignment.GoMap.{GoMap, lookup, insert}
use golang_assignment.GoText.{concat}

pub record Node : Type 0 where
  pub is_dir : Bool
  pub content : List ℕ
  pub mod_time : String

pub record Machine : Type 0 where
  -- the file or directory that a path names, by a name of its own
  pub locate : String → String
  pub nodes : GoMap Node
  -- the time of a write
  pub now : String
  -- `ctx.Err()` where the executor looks at its context
  pub done : Option String
  -- an error of an operation ("stat", "open", "create", "read", "write") on a path, other than that
  -- it is missing or a directory
  pub denied : String → String → Option String
  -- crypto/sha256
  pub sha256 : List ℕ → List ℕ

-- []byte(s): UTF-8
unfoldable pub utf8 : ℕ → List ℕ
utf8 c =
    if ltb c 0x80
    then c ∷ []
    else if ltb c 0x800
    then (0xc0 + c / 64) ∷ (0x80 + c % 64) ∷ []
    else if ltb c 0x10000
    then (0xe0 + c / 4096) ∷ (0x80 + c / 64 % 64) ∷ (0x80 + c % 64) ∷ []
    else (0xf0 + c / 262144) ∷ (0x80 + c / 4096 % 64) ∷ (0x80 + c / 64 % 64) ∷ (0x80 + c % 64) ∷ []

unfoldable pub bytes : String → List ℕ
unfolding utf8
bytes String.[] = []
bytes (String.◌∷◌ c rest) = utf8 (code c) ++ bytes rest

abbrev missing : String → String → String
missing operation path = concat (operation ∷ " " ∷ path ∷ ": no such file or directory" ∷ [])

abbrev directory : String → String → String
directory operation path = concat (operation ∷ " " ∷ path ∷ ": is a directory" ∷ [])

abbrev pub put_content : String → Bool → List ℕ → Machine → Machine
put_content path is_dir content h = record h {
  nodes =
      insert (h.locate path) (record { is_dir = is_dir; content = content; mod_time = h.now })
        h.nodes;
}

-- os.Stat; the second case is os.IsNotExist
pub data Stat : Type 0 where
  found : Node → Stat
  not_exist : Stat
  failing : String → Stat

unfoldable pub stat : String → Machine → Stat
stat path h = elim (h.denied "stat" path) [
  | some e ↦ failing e
  | none ↦ elim (lookup (h.locate path) h.nodes) [ none ↦ not_exist | some node ↦ found node ]
]

-- os.Open
unfoldable pub open_file : String → Machine → Result Node
open_file path h = elim (h.denied "open" path) [
  | some e ↦ err e
  | none ↦ elim (lookup (h.locate path) h.nodes) [
    | none ↦ err (missing "open" path)
    | some node ↦ ok node
  ]
]

-- os.Create: a new file, or the old one, emptied
unfoldable pub create_file : String → Machine → Result (Unit {0}) × Machine
create_file path h = elim (h.denied "create" path) [
  | some e ↦ (err e, h)
  | none ↦ elim (lookup (h.locate path) h.nodes) [
    | none ↦ (ok tt, put_content path false [] h)
    | some node ↦
        if node.is_dir
        then (err (directory "open" path), h)
        else (ok tt, put_content path false [] h)
  ]
]

-- what is read of an open file to its end
unfoldable pub read_file : String → Machine → Result (List ℕ)
read_file path h = elim (h.denied "read" path) [
  | some e ↦ err e
  | none ↦ elim (lookup (h.locate path) h.nodes) [
    | none ↦ err (missing "read" path)
    | some node ↦ if node.is_dir then err (directory "read" path) else ok node.content
  ]
]

-- what is written to a file that has just been emptied
unfoldable pub write_bytes : String → List ℕ → Machine → Result ℕ × Machine
write_bytes path content h = elim (h.denied "write" path) [
  | some e ↦ (err e, h)
  | none ↦ (ok (length content), put_content path false content h)
]

-- io.Copy between the open files
unfoldable pub copy_bytes : String → String → Machine → Result ℕ × Machine
unfolding read_file write_bytes
copy_bytes destination source h = elim (read_file source h) [
  | err e ↦ (err e, h)
  | ok content ↦ write_bytes destination content h
]

-- os.WriteFile
unfoldable pub write_file : String → List ℕ → Machine → Result (Unit {0}) × Machine
unfolding create_file write_bytes
write_file path content h =
    let (made, h') = create_file path h in
    elim made [
      | err e ↦ (err e, h')
      | ok _ ↦
          let (written, h'') = write_bytes path content h' in
          elim written [ err e ↦ (err e, h'') | ok n ↦ (ok tt, h'') ]
    ]
