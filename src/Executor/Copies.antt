-- ===== src/Executor/Copies.antt =====
-- What the file executors leave on the machine when they report success.
use golang_assignment.Prelude.{
  true, is_some, ◌==◌, ℕ, String, ◌≡◌, ◌≢◌, ap, inl, inr, arith, false, Option, none, some, List,
  [], eq_iff, if◌then◌else◌,
}
use golang_assignment.Prelude.Result.{ok, Result-cases}
use golang_assignment.GoMap.{lookup, lookup-insert}
use golang_assignment.Model.Entity.{Job}
use golang_assignment.Model.Status.{success}
use golang_assignment.Executor.Files.{
  payload_string, execute_copy_file, execute_write_file, copy_opened, copy_into, copy_result,
  write_result,
}
use golang_assignment.Executor.Machine.{
  Machine, Node, create_file, read_file, write_bytes, copy_bytes, write_file, bytes, put_content,
}

-- The content of a file, `none` for a directory or if there is none.
abbrev pub content_of : Option Node → Option (List ℕ)
content_of none = none
content_of (some node) = if node.is_dir then none else some node.content

abbrev pub content_at : String → Machine → Option (List ℕ)
content_at path h = content_of (lookup (h.locate path) h.nodes)

content_at-put :
    (path other : String) (content : List ℕ) (h : Machine)
    → content_at other (put_content path false content h)
      ≡ (if h.locate path == h.locate other then some content else content_at other h)
content_at-put path other content h = ground (
  arith,
  lookup-insert (h.locate path) (h.locate other)
      (record { is_dir = false; content = content; mod_time = h.now }) h.nodes,
)

write_bytes-ok :
    (path : String) (content : List ℕ) (h : Machine) (n : ℕ)
    → (write_bytes path content h).0 ≡ ok n
    → (write_bytes path content h).1 ≡ put_content path false content h
unfolding write_bytes
write_bytes-ok path content h n e = ground arith

create_file-ok :
    (path : String) (h : Machine)
    → (create_file path h).0 ≡ ok tt
    → (create_file path h).1 ≡ put_content path false [] h
unfolding create_file
create_file-ok path h e = ground arith

-- A successful copy is an emptied destination, and then what is read of the source.
copy_steps :
    (job : Job) (h : Machine)
    → (execute_copy_file job h).0.status ≡ success
    → let source = payload_string "source" job in
      let destination = payload_string "destination" job in
      let emptied = put_content destination false [] h in
      (content : List ℕ) × (read_file source emptied ≡ ok content)
      × ((execute_copy_file job h).1 ≡ put_content destination false content emptied)
unfolding execute_copy_file copy_opened copy_into copy_result copy_bytes create_file write_bytes
copy_steps job h e =
    let source = payload_string "source" job in
    let emptied = put_content (payload_string "destination" job) false [] h in
    elim (Result-cases (read_file source emptied)) [
      | inl (content, read) ↦ (content, read, ground arith)
      | inr (error, read) ↦ ground arith
    ]

read_file-content :
    (path : String) (h : Machine) (content : List ℕ)
    → read_file path h ≡ ok content
    → content_at path h ≡ some content
unfolding read_file
read_file-content path h content e = ground arith

-- What is read of another path after the destination is emptied was there before.
source_content :
    (job : Job) (h : Machine) (content : List ℕ)
    → h.locate (payload_string "source" job) ≢ h.locate (payload_string "destination" job)
    → read_file
        (payload_string "source" job)
        (put_content (payload_string "destination" job) false [] h)
      ≡ ok content
    → content_at (payload_string "source" job) h ≡ some content
source_content job h content apart read =
    let source = payload_string "source" job in
    let destination = payload_string "destination" job in
    ground (
      arith,
      read_file-content source (put_content destination false [] h) content read,
      content_at-put destination source [] h,
      eq_iff (h.locate destination) (h.locate source),
    )

-- A copy that succeeds, to a path that does not name the source's file, has had a file to copy, leaves its
-- content at the destination, and leaves the source and every other file as it was.
pub copy_file_copies :
    (job : Job) (h : Machine) (other : String)
    → h.locate (payload_string "source" job) ≢ h.locate (payload_string "destination" job)
    → (execute_copy_file job h).0.status ≡ success
    → (is_some (content_at (payload_string "source" job) h) ≡ true)
      × (content_at other (execute_copy_file job h).1 ≡ (
          if h.locate (payload_string "destination" job) == h.locate other
          then content_at (payload_string "source" job) h
          else content_at other h))
copy_file_copies job h other apart e =
    let source = payload_string "source" job in
    let destination = payload_string "destination" job in
    let emptied = put_content destination false [] h in
    let (content, read, after) = copy_steps job h e in
    let held = source_content job h content apart read in
    (
      ap is_some held,
      ground (
        arith,
        held,
        ap (content_at other) after,
        content_at-put destination other content emptied,
        content_at-put destination other [] h,
      ),
    )

-- A copy of a file onto itself that succeeds leaves it empty, be the two paths the same or two names of
-- the file: `os.Create` has emptied it before it is read.
pub copy_file_onto_itself :
    (job : Job) (h : Machine)
    → h.locate (payload_string "source" job) ≡ h.locate (payload_string "destination" job)
    → (execute_copy_file job h).0.status ≡ success
    → content_at (payload_string "source" job) (execute_copy_file job h).1 ≡ some []
copy_file_onto_itself job h same e =
    let source = payload_string "source" job in
    let destination = payload_string "destination" job in
    let emptied = put_content destination false [] h in
    let (content, read, after) = copy_steps job h e in
    ground (
      arith,
      same,
      read_file-content source emptied content read,
      content_at-put destination source [] h,
      ap (content_at source) after,
      content_at-put destination source content emptied,
      eq_iff (h.locate destination) (h.locate source),
    )

write_steps :
    (job : Job) (h : Machine)
    → (execute_write_file job h).0.status ≡ success
    → (execute_write_file job h).1
      ≡ put_content
          (payload_string "path" job)
          false
          (bytes (payload_string "content" job))
          (put_content (payload_string "path" job) false [] h)
unfolding execute_write_file write_result write_file create_file write_bytes
write_steps job h e = ground arith

-- A write that succeeds leaves the bytes of the content at the path, and every other file as it was.
pub write_file_writes :
    (job : Job) (h : Machine) (other : String)
    → (execute_write_file job h).0.status ≡ success
    → content_at other (execute_write_file job h).1 ≡ (
        if h.locate (payload_string "path" job) == h.locate other
        then some (bytes (payload_string "content" job))
        else content_at other h)
write_file_writes job h other e =
    let path = payload_string "path" job in
    let content = bytes (payload_string "content" job) in
    ground (
      arith,
      ap (content_at other) (write_steps job h e),
      content_at-put path other content (put_content path false [] h),
      content_at-put path other [] h,
    )
