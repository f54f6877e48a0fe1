-- ===== src/Api/Routes.antt =====
-- The URLs that the client builds and the paths that the server takes apart.
use lockd.Prelude.{
  ℕ, ◌≡◌, inl, inr, refl, sym, ap, ◌∙◌, subst, ◌||◌, ◌&&◌, not, true, false, Bool, Bool-cases,
  Option, some, List, [], ◌∷◌, ◌++◌, Text, text, text_eq, text_beq, nat_eq, is_empty, ◌==◌,
  contains, if◌then◌else◌, arith,
}
use mathlib.Core.List.{append_assoc}
use mathlib.Core.Option.{some-injective}
use lockd.Lock.Errors.{Error}
use lockd.Lock.Types.{Time}
use lockd.Lock.Registry.{is_name_char, all_name_chars, valid_name}
use lockd.Lock.Service.{Service}
use lockd.Strings.{has_prefix, trim_prefix, split, path_unescape, unescape_from, add_byte}
use lockd.Strings.Paths.{
  outside_step, cut_prefix-append, split-part, split-append, name_no_slash, path_escape-name,
}
use lockd.Client.Types.{lock_path}
use lockd.Api.Types.{Codec, Request, Response}
use lockd.Api.Handlers.{answered, operate, route_parts}
use lockd.Api.Router.{is_dotted, is_clean, moved, handle_lock_path, dispatch}

abbrev root : Text
root = text "/api/v1/locks/"

-- The path of an operation on a lock.
abbrev pub operation_path : Text → Text → Text → Text
operation_path namespace name operation = lock_path namespace name ++ (text "/" ++ operation)

valid-all_name_chars : (s : Text) → valid_name s ≡ true → all_name_chars s ≡ true
unfolding valid_name
valid-all_name_chars s h = ground arith

valid-nonempty : (s : Text) → valid_name s ≡ true → is_empty s ≡ false
unfolding valid_name
valid-nonempty [] h = ground arith
valid-nonempty (c ∷ s) h = refl

operation_path-parts :
    (ns name op : Text)
    → all_name_chars ns ≡ true
    → all_name_chars name ≡ true
    → operation_path ns name op ≡ root ++ (ns ++ 47 ∷ (name ++ 47 ∷ op))
unfolding lock_path text
operation_path-parts ns name op hn hm =
    rw (path_escape-name ns hn, path_escape-name name hm, append_assoc ns (47 ∷ name) (47 ∷ op))
      refl

trim_prefix-root : (s : Text) → trim_prefix (root ++ s) root ≡ s
trim_prefix-root s = rw (cut_prefix-append root s) refl

has_prefix-root : (s : Text) → has_prefix (root ++ s) root ≡ true
has_prefix-root s = rw (cut_prefix-append root s) refl

split-parts :
    (ns name op : Text)
    → all_name_chars ns ≡ true
    → all_name_chars name ≡ true
    → contains 47 op ≡ false
    → split 47 (ns ++ 47 ∷ (name ++ 47 ∷ op)) ≡ ns ∷ name ∷ op ∷ []
split-parts ns name op hn hm ho =
    rw
      (
        split-append 47 ns (name ++ 47 ∷ op) (name_no_slash ns hn),
        split-append 47 name op (name_no_slash name hm),
        split-part 47 op ho,
      )
      refl

-- A text of name characters and slashes has no escape to undo.
abbrev is_plain_char : ℕ → Bool
is_plain_char c = is_name_char c || c == 47

abbrev is_plain : Text → Bool
is_plain [] = true
is_plain (c ∷ s) = is_plain_char c && is_plain s

plain-ne-percent : (c : ℕ) → is_plain_char c ≡ true → (c == b'%') ≡ false
unfolding is_name_char
plain-ne-percent c h = ground arith

and_parts : (a b : Bool) → (a && b) ≡ true → (a ≡ true) × (b ≡ true)
and_parts true b h = (refl, h)
and_parts false b h = absurd (cc)

path_unescape-plain : (s : Text) → is_plain s ≡ true → path_unescape s ≡ some s
path_unescape-plain [] h = unfold unescape_from in refl
path_unescape-plain (c ∷ s) h =
    let (hc, hs) = and_parts (is_plain_char c) (is_plain s) h in
    outside_step c s (plain-ne-percent c hc) ∙ ap (add_byte c) (path_unescape-plain s hs)

plain-append : (s t : Text) → is_plain s ≡ true → is_plain t ≡ true → is_plain (s ++ t) ≡ true
plain-append [] t hs ht = ht
plain-append (c ∷ s) t hs ht = ground (arith, plain-append s t)

plain-name : (s : Text) → all_name_chars s ≡ true → is_plain s ≡ true
unfolding all_name_chars
plain-name [] h = refl
plain-name (c ∷ s) h = ground (arith, plain-name s)

path_plain :
    (ns name op : Text)
    → is_plain ns ≡ true
    → is_plain name ≡ true
    → is_plain op ≡ true
    → is_plain (root ++ (ns ++ 47 ∷ (name ++ 47 ∷ op))) ≡ true
unfolding text is_name_char
path_plain ns name op hn hm ho =
    plain-append ns (47 ∷ (name ++ 47 ∷ op)) hn (plain-append name (47 ∷ op) hm ho)

root-not_locks : (s : Text) → ((root ++ s) == text "/api/v1/locks") ≡ false
unfolding text text_beq
root-not_locks s = refl

clean_lem : (a b c d : Bool) → d ≡ false → (not a && (not b && (c || not d))) ≡ not (a || b)
clean_lem true b c d h = refl
clean_lem false true c d h = refl
clean_lem false false c true h = absurd (cc)
clean_lem false false true false h = refl
clean_lem false false false false h = refl

-- The mux cleans a path just where a name of the lock is made of dots.
is_clean-path :
    (ns name op : Text)
    → all_name_chars ns ≡ true
    → all_name_chars name ≡ true
    → contains 47 op ≡ false
    → is_dotted op ≡ false
    → is_clean (root ++ (ns ++ 47 ∷ (name ++ 47 ∷ op))) ≡ not (is_dotted ns || is_dotted name)
unfolding is_clean text text_beq split
is_clean-path ns name op hn hm ho plain =
    rw (split-parts ns name op hn hm ho)
      (clean_lem (is_dotted ns) (is_dotted name) (is_empty op) (is_dotted op) plain)

module _ (rand : ℕ → Option (List ℕ)) (codec : Codec) where
  handle_lock_path-operate :
      (s : Service) (ctx_err : Option Error) (r : Request) (ns name op : Text) (now : Time)
      → valid_name ns ≡ true
      → valid_name name ≡ true
      → contains 47 op ≡ false
      → (r.method == text "POST") ≡ true
      → r.path ≡ root ++ (ns ++ 47 ∷ (name ++ 47 ∷ op))
      → handle_lock_path rand codec s ctx_err r now ≡ operate rand codec s ctx_err r ns name op now
  unfolding handle_lock_path route_parts
  handle_lock_path-operate s ctx_err r ns name op now hn hm ho post path =
      rw
        (
          path,
          trim_prefix-root (ns ++ 47 ∷ (name ++ 47 ∷ op)),
          split-parts ns name op (valid-all_name_chars ns hn) (valid-all_name_chars name hm) ho,
          valid-nonempty ns hn,
          valid-nonempty name hm,
          post,
        )
        refl

  -- For a POST to the URL of an operation (of name characters, not empty, "." or "..") on a lock
  -- with valid names, as the client builds it and the server decodes it: it leads to that
  -- operation on that lock where neither name is "." or ".."; for a lock with such a name the mux
  -- redirects to another path, so that no handler is called.
  pub requests_reach_locks :
      (started : Time) (files : Option (Request → Response)) (s : Service) (ctx_err : Option Error)
      (r : Request) (ns name op : Text) (now : Time)
      → valid_name ns ≡ true
      → valid_name name ≡ true
      → all_name_chars op ≡ true
      → is_dotted op ≡ false
      → (r.method == text "POST") ≡ true
      → path_unescape (operation_path ns name op) ≡ some r.path
      → dispatch rand codec started files s ctx_err r now ≡ (
          if is_dotted ns || is_dotted name
          then (s, answered moved)
          else operate rand codec s ctx_err r ns name op now)
  unfolding dispatch
  requests_reach_locks started files s ctx_err r ns name op now hn hm ho plain post path =
      let cn = valid-all_name_chars ns hn in
      let cm = valid-all_name_chars name hm in
      let no_slash = name_no_slash op ho in
      let decoded : root ++ (ns ++ 47 ∷ (name ++ 47 ∷ op)) ≡ r.path = some-injective _ _ (
        sym (
          path_unescape-plain _
            (path_plain ns name op (plain-name ns cn) (plain-name name cm) (plain-name op ho)))
        ∙ ap path_unescape (sym (operation_path-parts ns name op cn cm))
        ∙ path) in
      let clean : is_clean r.path ≡ not (is_dotted ns || is_dotted name) =
        subst (λ p. is_clean p ≡ not (is_dotted ns || is_dotted name)) decoded
          (is_clean-path ns name op cn cm no_slash plain) in
      let not_locks : (r.path == text "/api/v1/locks") ≡ false =
        subst (λ p. (p == text "/api/v1/locks") ≡ false) decoded (root-not_locks _) in
      let below : has_prefix r.path root ≡ true =
        subst (λ p. has_prefix p root ≡ true) decoded (has_prefix-root _) in
      elim (Bool-cases (is_dotted ns || is_dotted name)) [
        | inl dotted ↦ rw (clean, dotted) refl
        | inr named ↦
            rw (clean, named, not_locks, below)
              (handle_lock_path-operate s ctx_err r ns name op now hn hm no_slash post
                (sym decoded))
      ]
