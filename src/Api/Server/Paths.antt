-- ===== src/Api/Server/Paths.antt =====
-- The routes of the paths that clients build from an ID.
use Prim.Native.Char.{code}
use Prim.Native.String.{String}
use mathlib.Core.Path.{subst}
use text.Mathlib.TextLemmas.{cons-append, nil-append, append-nil, append_assoc}
use golang_assignment.Prelude.{
  ◌==◌, Bool-cases, inl, inr, ◌≡◌, ◌≢◌, sym, ap, ◌∙◌, false, [], ◌∷◌, eq_iff, arith, if◌then◌else◌,
  nat_eq,
}
use golang_assignment.GoText.{concat}
use golang_assignment.GoUrl.Plain.{IsPlainId}
use golang_assignment.Api.Server.{
  is_clean, Route, split_from, segments, route_of, route, job_action, agent_action, when_post,
}
use Prim.Native.String

-- No character is a slash.
abbrev pub IsSegment : String → Type 0
IsSegment String.[] = Unit
IsSegment (String.◌∷◌ c rest) = (nat_eq (code c) 47 ≡ false) × IsSegment rest

pub plain-IsSegment : (s : String) → IsPlainId s → IsSegment s
plain-IsSegment String.[] all = tt
plain-IsSegment (String.◌∷◌ c s) (first, later) = (ground arith, plain-IsSegment s later)

split_from-segment :
    (a segment rest : String)
    → IsSegment a
    → split_from segment (String.◌++◌ a rest) ≡ split_from (String.◌++◌ segment a) rest
unfolding split_from
split_from-segment String.[] segment rest h =
    ap (λ t. split_from segment t) (nil-append rest)
    ∙ ap (λ t. split_from t rest) (sym (append-nil segment))
split_from-segment (String.◌∷◌ c a) segment rest (other, h) =
    let shifted =
      split_from-segment a (String.◌++◌ segment (String.◌∷◌ c "")) rest h
      ∙ ap (λ t. split_from t rest)
          (append_assoc segment (String.◌∷◌ c "") a
            ∙ ap (λ t. String.◌++◌ segment t)
                (cons-append c "" a ∙ ap (λ t. String.◌∷◌ c t) (nil-append a))) in
    ap (λ t. split_from segment t) (cons-append c a rest)
    ∙ ap
        (λ b.
          if b
          then segment ∷ split_from "" (String.◌++◌ a rest)
          else split_from (String.◌++◌ segment (String.◌∷◌ c "")) (String.◌++◌ a rest))
        other
    ∙ shifted

split_slash :
    (segment rest : String)
    → split_from segment (String.◌++◌ "/" rest) ≡ segment ∷ split_from "" rest
unfolding split_from
split_slash segment rest =
    ap (λ t. split_from segment t)
      (cons-append "/" "" rest ∙ ap (λ t. String.◌∷◌ "/" t) (nil-append rest))

split_last : (a segment : String) → IsSegment a → split_from segment a ≡ String.◌++◌ segment a ∷ []
unfolding split_from
split_last a segment h =
    ap (λ t. split_from segment t) (sym (append-nil a)) ∙ split_from-segment a segment "" h

segments_three :
    (a b c : String)
    → IsSegment a
    → IsSegment b
    → IsSegment c
    → segments
        (String.◌++◌ "/" (String.◌++◌ a (String.◌++◌ "/" (String.◌++◌ b (String.◌++◌ "/" c)))))
      ≡ a ∷ b ∷ c ∷ []
unfolding segments
segments_three a b c p q r =
    let tail = String.◌++◌ "/" (String.◌++◌ b (String.◌++◌ "/" c)) in
    ap (λ t. segments t)
      (cons-append "/" "" (String.◌++◌ a tail)
        ∙ ap (λ t. String.◌∷◌ "/" t) (nil-append (String.◌++◌ a tail)))
    ∙ split_from-segment a "" tail p
    ∙ ap (λ t. split_from t tail) (nil-append a)
    ∙ split_slash a (String.◌++◌ b (String.◌++◌ "/" c))
    ∙ ap (λ l. a ∷ l)
        (split_from-segment b "" (String.◌++◌ "/" c) q
          ∙ ap (λ t. split_from t (String.◌++◌ "/" c)) (nil-append b)
          ∙ split_slash b c
          ∙ ap (λ l. b ∷ l) (split_last c "" r ∙ ap (λ t. t ∷ []) (nil-append c)))

agents_path :
    (id after : String)
    → String.◌++◌ "/agents/" (String.◌++◌ id after)
      ≡ String.◌++◌ "/" (String.◌++◌ "agents" (String.◌++◌ "/" (String.◌++◌ id after)))
agents_path id after =
    append_assoc "/" "agents/" (String.◌++◌ id after)
    ∙ ap (λ t. String.◌++◌ "/" t) (append_assoc "agents" "/" (String.◌++◌ id after))

jobs_path :
    (id after : String)
    → String.◌++◌ "/jobs/" (String.◌++◌ id after)
      ≡ String.◌++◌ "/" (String.◌++◌ "jobs" (String.◌++◌ "/" (String.◌++◌ id after)))
jobs_path id after =
    append_assoc "/" "jobs/" (String.◌++◌ id after)
    ∙ ap (λ t. String.◌++◌ "/" t) (append_assoc "jobs" "/" (String.◌++◌ id after))

segments_next_job :
    (id : String)
    → IsSegment id
    → segments (concat ("/agents/" ∷ id ∷ "/next-job" ∷ [])) ≡ "agents" ∷ id ∷ "next-job" ∷ []
unfolding concat
segments_next_job id plain =
    ap (λ t. segments t) (agents_path id "/next-job")
    ∙ segments_three "agents" id "next-job" (ground arith) plain (ground arith)

segments_result :
    (id : String)
    → IsSegment id
    → segments (concat ("/jobs/" ∷ id ∷ "/result" ∷ [])) ≡ "jobs" ∷ id ∷ "result" ∷ []
unfolding concat
segments_result id plain =
    ap (λ t. segments t) (jobs_path id "/result")
    ∙ segments_three "jobs" id "result" (ground arith) plain (ground arith)

dot_not_plain : ¬ IsPlainId "."
dot_not_plain (first, rest) = cc

dots_not_plain : ¬ IsPlainId ".."
dots_not_plain (first, rest) = cc

not_dots : (id : String) → IsPlainId id → ((id == ".") ≡ false) × ((id == "..") ≡ false)
not_dots id plain = (
  elim (Bool-cases (id == ".")) [
    | inl same ↦ absurd (dot_not_plain (subst IsPlainId ((eq_iff id ".").0 same) plain))
    | inr other ↦ other
  ],
  elim (Bool-cases (id == "..")) [
    | inl same ↦ absurd (dots_not_plain (subst IsPlainId ((eq_iff id "..").0 same) plain))
    | inr other ↦ other
  ],
)

-- The path on which an agent polls reaches the handler for this agent.
pub route_next_job :
    (id : String)
    → IsPlainId id
    → id ≢ ""
    → route "POST" (concat ("/agents/" ∷ id ∷ "/next-job" ∷ [])) ≡ Route.next_job id
unfolding route route_of is_clean job_action agent_action when_post
route_next_job id plain named =
    rw (segments_next_job id (plain-IsSegment id plain))
      (ground (arith, eq_iff id "", not_dots id plain))

pub route_result :
    (id : String)
    → IsPlainId id
    → id ≢ ""
    → route "POST" (concat ("/jobs/" ∷ id ∷ "/result" ∷ [])) ≡ Route.job_result id
unfolding route route_of is_clean job_action agent_action when_post
route_result id plain named =
    rw (segments_result id (plain-IsSegment id plain))
      (ground (arith, eq_iff id "", not_dots id plain))

segments_heartbeat :
    (id : String)
    → IsSegment id
    → segments (concat ("/agents/" ∷ id ∷ "/heartbeat" ∷ [])) ≡ "agents" ∷ id ∷ "heartbeat" ∷ []
unfolding concat
segments_heartbeat id plain =
    ap (λ t. segments t) (agents_path id "/heartbeat")
    ∙ segments_three "agents" id "heartbeat" (ground arith) plain (ground arith)

pub route_heartbeat :
    (id : String)
    → IsPlainId id
    → id ≢ ""
    → route "POST" (concat ("/agents/" ∷ id ∷ "/heartbeat" ∷ [])) ≡ Route.heartbeat id
unfolding route route_of is_clean job_action agent_action when_post
route_heartbeat id plain named =
    rw (segments_heartbeat id (plain-IsSegment id plain))
      (ground (arith, eq_iff id "", not_dots id plain))
