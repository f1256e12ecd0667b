-- ===== src/GoUrl/Plain.antt =====
-- URLs and headers of plain texts.
use Prim.Native.Char.{Char, code}
use mathlib.Core.Path.{subst}
use text.Mathlib.TextLemmas.{cons-append, nil-append, append-nil, append_assoc}
use golang_assignment.Prelude.{
  ℕ, ◌≡◌, ◌≢◌, sym, refl, ap, ◌∙◌, String, Bool, true, false, ◌&&◌, ◌||◌, not, none, some, [], ◌∷◌,
  ◌==◌, leb, ltb, nat_eq, arith, eq_iff, Bool-cases, inl, inr,
}
use golang_assignment.Prelude.Result.{Result, ok}
use golang_assignment.GoText.{concat}
use golang_assignment.GoUrl.{
  any_rune, cut, split_path, after_prefix, to_lower, is_control, is_percent, parse_url,
  is_bad_header, trim_header, url_of, after_scheme,
}
use Prim.Native.String

-- All characters pass a test.
abbrev pub AllRunes : (ℕ → Bool) → String → Type 0
AllRunes test String.[] = Unit
AllRunes test (String.◌∷◌ c rest) = (test (code c) ≡ true) × AllRunes test rest

-- a letter or a digit of ASCII, "-" or "_"
abbrev pub is_plain : ℕ → Bool
is_plain c =
    (leb 48 c && leb c 57)
    || (leb 65 c && leb c 90)
    || (leb 97 c && leb c 122)
    || nat_eq c 45
    || nat_eq c 95

abbrev pub IsPlainId : String → Type 0
IsPlainId = AllRunes is_plain

abbrev pub is_name_rune : ℕ → Bool
is_name_rune c = is_plain c || nat_eq c 46

abbrev pub is_digit : ℕ → Bool
is_digit c = leb 48 c && leb c 57

-- one of these, "." or ":"
abbrev pub is_host_rune : ℕ → Bool
is_host_rune c = is_plain c || nat_eq c 46 || nat_eq c 58

-- one of these, or a slash
abbrev pub is_url_rune : ℕ → Bool
is_url_rune c = is_host_rune c || nat_eq c 47

-- neither a space nor a control character
abbrev pub is_visible : ℕ → Bool
is_visible c = ltb 32 c && not (nat_eq c 127)

AllRunes-weaken :
    (p q : ℕ → Bool) (s : String)
    → ((c : ℕ) → p c ≡ true → q c ≡ true)
    → AllRunes p s
    → AllRunes q s
AllRunes-weaken p q String.[] h all = tt
AllRunes-weaken p q (String.◌∷◌ c rest) h (first, later) =
    (h (code c) first, AllRunes-weaken p q rest h later)

pub AllRunes-append :
    (p : ℕ → Bool) (a b : String) → AllRunes p a → AllRunes p b → AllRunes p (String.◌++◌ a b)
AllRunes-append p String.[] b h k = subst (AllRunes p) (sym (nil-append b)) k
AllRunes-append p (String.◌∷◌ c a) b (first, later) k =
    subst (AllRunes p) (sym (cons-append c a b)) (first, AllRunes-append p a b later k)

-- a name, and a port of digits if there is one
pub data IsHost (host : String) : Type 0 where
  bare : AllRunes is_name_rune host → IsHost host
  with_port :
      (name port : String)
      → AllRunes is_name_rune name
      → AllRunes is_digit port
      → host ≡ String.◌++◌ name (String.◌++◌ ":" port)
      → IsHost host

IsHost-runes : (host : String) → IsHost host → AllRunes is_host_rune host
IsHost-runes host (bare runes) =
    AllRunes-weaken is_name_rune is_host_rune host (λ c h. ground arith) runes
IsHost-runes host (with_port name port name_runes digits text) =
    subst (AllRunes is_host_rune) (sym text) (
      AllRunes-append is_host_rune name (String.◌++◌ ":" port)
        (AllRunes-weaken is_name_rune is_host_rune name (λ c h. ground arith) name_runes)
        (AllRunes-append is_host_rune ":" port (refl, tt)
          (AllRunes-weaken is_digit is_host_rune port (λ c h. ground arith) digits)))

-- The server's URL without a path, over http: "http://localhost:8080".
pub record IsServerUrl (s : String) : Type 0 where
  pub host : String
  pub shape : IsHost host
  pub named : host ≢ ""
  pub text : s ≡ String.◌++◌ "http://" host

any_rune-none :
    (p q : ℕ → Bool) (s : String)
    → ((c : ℕ) → p c ≡ true → q c ≡ false)
    → AllRunes p s
    → any_rune q s ≡ false
unfolding any_rune
any_rune-none p q String.[] h all = refl
any_rune-none p q (String.◌∷◌ c rest) h (first, later) =
    rw (h (code c) first, any_rune-none p q rest h later) refl

cut-none :
    (p : ℕ → Bool) (separator : ℕ) (s : String)
    → ((c : ℕ) → p c ≡ true → nat_eq c separator ≡ false)
    → AllRunes p s
    → cut separator s ≡ (s, none)
unfolding cut
cut-none p separator String.[] h all = refl
cut-none p separator (String.◌∷◌ c rest) h (first, later) =
    rw (h (code c) first, cut-none p separator rest h later) refl

split_path-host :
    (host rest : String)
    → AllRunes is_host_rune host
    → split_path (String.◌++◌ host (String.◌++◌ "/" rest)) ≡ (host, String.◌++◌ "/" rest)
unfolding split_path
split_path-host String.[] rest all =
    ap split_path (nil-append (String.◌++◌ "/" rest) ∙ cons-append "/" "" rest)
    ∙ ap (λ t. ("", t)) (sym (cons-append "/" "" rest))
split_path-host (String.◌∷◌ c host) rest (first, later) =
    let other : nat_eq (code c) 47 ≡ false = ground arith in
    ap split_path (cons-append c host (String.◌++◌ "/" rest))
    ∙ rw (other, split_path-host host rest later) refl

after_prefix-append :
    (prefix s : String)
    → AllRunes (λ c. nat_eq (to_lower c) c) prefix
    → after_prefix prefix (String.◌++◌ prefix s) ≡ some s
unfolding after_prefix
after_prefix-append String.[] s all = ap (after_prefix "") (nil-append s)
after_prefix-append (String.◌∷◌ c prefix) s (first, later) =
    ap (after_prefix (String.◌∷◌ c prefix)) (cons-append c prefix s)
    ∙ rw (first, after_prefix-append prefix s later) refl

after_scheme-http : (s : String) → after_scheme (String.◌++◌ "http://" s) ≡ some s
unfolding after_scheme
after_scheme-http s =
    rw (after_prefix-append "http://" s (refl, (refl, (refl, (refl, (refl, (refl, (refl, tt))))))))
      refl

no_query : (c : ℕ) → is_url_rune c ≡ true → nat_eq c 63 ≡ false
no_query c h = ground arith

no_fragment : (c : ℕ) → is_url_rune c ≡ true → nat_eq c 35 ≡ false
no_fragment c h = ground arith

no_control : (c : ℕ) → is_url_rune c ≡ true → is_control c ≡ false
no_control c h = ground arith

no_percent : (c : ℕ) → is_url_rune c ≡ true → is_percent c ≡ false
no_percent c h = ground arith

host_is_url : (c : ℕ) → is_host_rune c ≡ true → is_url_rune c ≡ true
host_is_url c h = ground arith

plain_is_url : (c : ℕ) → is_plain c ≡ true → is_url_rune c ≡ true
plain_is_url c h = ground arith

plain_is_visible : (c : ℕ) → is_plain c ≡ true → is_visible c ≡ true
plain_is_visible c h = ground arith

pub IsPlainId-url : (s : String) → IsPlainId s → AllRunes is_url_rune s
IsPlainId-url s = AllRunes-weaken is_plain is_url_rune s plain_is_url

module _ (unescape : String → Result String) where
  url_of-plain :
      (host path : String)
      → AllRunes is_host_rune host
      → host ≢ ""
      → AllRunes is_url_rune path
      → url_of unescape (String.◌++◌ host (String.◌++◌ "/" path))
        ≡ ok (record { authority = host; path = String.◌++◌ "/" path })
  url_of-plain host path host_runes named path_runes =
      let slashed : AllRunes is_url_rune (String.◌++◌ "/" path) =
        AllRunes-append is_url_rune "/" path (refl, tt) path_runes in
      let all : AllRunes is_url_rune (String.◌++◌ host (String.◌++◌ "/" path)) =
        AllRunes-append is_url_rune host (String.◌++◌ "/" path)
          (AllRunes-weaken is_host_rune is_url_rune host host_is_url host_runes) slashed in
      ground (
        arith,
        cut-none is_url_rune 63 (String.◌++◌ host (String.◌++◌ "/" path)) no_query all,
        split_path-host host path host_runes,
        any_rune-none is_url_rune is_percent (String.◌++◌ "/" path) no_percent slashed,
        eq_iff host "",
      )

  -- The server's URL with a plain path after it is the server's, at this path.
  pub parse_url-plain :
      (server path : String) (h : IsServerUrl server)
      → AllRunes is_url_rune path
      → parse_url unescape (String.◌++◌ server (String.◌++◌ "/" path))
        ≡ ok (record { authority = h.host; path = String.◌++◌ "/" path })
  unfolding parse_url
  parse_url-plain server path h path_runes =
      let after = String.◌++◌ h.host (String.◌++◌ "/" path) in
      let text : String.◌++◌ server (String.◌++◌ "/" path) ≡ String.◌++◌ "http://" after =
        ap (λ s. String.◌++◌ s (String.◌++◌ "/" path)) h.text
        ∙ append_assoc "http://" h.host (String.◌++◌ "/" path) in
      let all : AllRunes is_url_rune (String.◌++◌ "http://" after) =
        AllRunes-append is_url_rune "http://" after
          (refl, (refl, (refl, (refl, (refl, (refl, (refl, tt)))))))
          (AllRunes-append is_url_rune h.host (String.◌++◌ "/" path)
            (AllRunes-weaken is_host_rune is_url_rune h.host host_is_url
              (IsHost-runes h.host h.shape))
            (AllRunes-append is_url_rune "/" path (refl, tt) path_runes)) in
      ap (parse_url unescape) text
      ∙ rw
          (
            cut-none is_url_rune 35 (String.◌++◌ "http://" after) no_fragment all,
            any_rune-none is_url_rune is_control (String.◌++◌ "http://" after) no_control all,
            after_scheme-http after,
          )
          (url_of-plain h.host path (IsHost-runes h.host h.shape) h.named path_runes)

visible_header : (c : ℕ) → is_visible c ≡ true → is_bad_header c ≡ false
visible_header c h = ground arith

visible_ink : (c : ℕ) → is_visible c ≡ true → (nat_eq c 32 || nat_eq c 9) ≡ false
visible_ink c h = ground arith

cons-apart : (c : Char) (s : String) → String.◌∷◌ c s ≢ ""
cons-apart c s e = cc

cons-ne-empty : (c : Char) (s : String) → (String.◌∷◌ c s == "") ≡ false
cons-ne-empty c s = elim (Bool-cases (String.◌∷◌ c s == "")) [
  | inl same ↦ absurd (cons-apart c s ((eq_iff (String.◌∷◌ c s) "").0 same))
  | inr other ↦ other
]

trim_header-visible : (s : String) → AllRunes is_visible s → trim_header s ≡ s
unfolding trim_header
trim_header-visible String.[] all = refl
trim_header-visible (String.◌∷◌ c rest) (first, later) =
    rw (visible_ink (code c) first, trim_header-visible rest later) refl

-- A space before a visible text stays.
trim_header-space :
    (c : Char) (s : String)
    → trim_header s ≡ s
    → (s == "") ≡ false
    → trim_header (String.◌∷◌ c s) ≡ String.◌∷◌ c s
unfolding trim_header
trim_header-space c s same more = rw (same, more) (ground arith)

append-ne-empty : (a b : String) → (b == "") ≡ false → (String.◌++◌ a b == "") ≡ false
append-ne-empty String.[] b more = ap (λ s. s == "") (nil-append b) ∙ more
append-ne-empty (String.◌∷◌ c a) b more =
    ap (λ s. s == "") (cons-append c a b) ∙ cons-ne-empty c (String.◌++◌ a b)

trim_header-append :
    (a b : String)
    → trim_header b ≡ b
    → (b == "") ≡ false
    → trim_header (String.◌++◌ a b) ≡ String.◌++◌ a b
trim_header-append String.[] b same more = ap trim_header (nil-append b) ∙ same ∙ sym (nil-append b)
trim_header-append (String.◌∷◌ c a) b same more =
    ap trim_header (cons-append c a b)
    ∙ trim_header-space c (String.◌++◌ a b) (trim_header-append a b same more)
        (append-ne-empty a b more)
    ∙ sym (cons-append c a b)

-- A token without spaces and control characters arrives as it was sent.
pub bearer-kept :
    (token : String)
    → AllRunes is_visible token
    → (token == "") ≡ false
    → trim_header (concat ("Bearer " ∷ token ∷ [])) ≡ concat ("Bearer " ∷ token ∷ [])
unfolding concat
bearer-kept token visible more =
    rw (append-nil token)
      (trim_header-append "Bearer " token (trim_header-visible token visible) more)

pub bearer-good :
    (token : String)
    → AllRunes is_visible token
    → any_rune is_bad_header (concat ("Bearer " ∷ token ∷ [])) ≡ false
unfolding concat
bearer-good token visible =
    let p : ℕ → Bool = λ c. is_visible c || nat_eq c 32 in
    any_rune-none p is_bad_header (String.◌++◌ "Bearer " (String.◌++◌ token ""))
      (λ c h. ground arith)
      (AllRunes-append p "Bearer " (String.◌++◌ token "")
        (refl, (refl, (refl, (refl, (refl, (refl, (refl, tt)))))))
        (AllRunes-append p token ""
          (AllRunes-weaken is_visible p token (λ c h. ground arith) visible) tt))

-- a path that needs no escape
pub record IsUrlPath (path : String) : Type 0 where
  pub rest : String
  pub runes : AllRunes is_url_rune rest
  pub text : path ≡ String.◌++◌ "/" rest

-- the paths of the agent: a collection, an ID and an action
pub item_path :
    (collection id action : String)
    → AllRunes is_url_rune collection
    → IsPlainId id
    → AllRunes is_url_rune action
    → IsUrlPath (concat (String.◌++◌ "/" collection ∷ id ∷ action ∷ []))
unfolding concat
item_path collection id action collection_runes plain action_runes =
    let after = String.◌++◌ id (String.◌++◌ action "") in
    record {
      rest = String.◌++◌ collection after;
      runes = AllRunes-append is_url_rune collection after collection_runes (
          AllRunes-append is_url_rune id (String.◌++◌ action "") (IsPlainId-url id plain)
            (AllRunes-append is_url_rune action "" action_runes tt));
      text = append_assoc "/" collection after;
    }
