-- ===== src/Api/Pages.antt =====
-- The pages of a list, and the limits of a wait: internal/api/handlers.go.
use lockd.Prelude.{
  ℕ, zero, suc, ◌+◌, ◌≤◌, ◌<◌, ◌≡◌, refl, Bool, sym, ap, ◌∙◌, inl, inr, true, false, Bool-cases,
  Option, some, none, List, [], ◌∷◌, ◌++◌, leb, pos, ltb_ℤ, leb_ℤ, ◌≤ℤ◌, length, take, drop,
  is_empty, ◌&&◌, ◌||◌, if◌then◌else◌, arith,
}
use lockd.Lock.Errors.{ErrorCode, Result, ok, err}
use lockd.Api.Responses.{code_of}
use lockd.Lock.Types.{Duration}
use lockd.Lock.Registry.{View}
use lockd.Api.Types.{Codec, AcquireRequest, WatchRequest}
use lockd.Api.Options.{acquire_limit, watch_limit, wait_limit, event_limit, minutes}
use lockd.Api.Handlers.{page}

suc_add : (n m : ℕ) → suc (n + m) ≡ suc n + m
suc_add n m = omega arith

module _ {ℓ} {A : Type ℓ} where
  drop-all : (n : ℕ) (xs : List A) → length xs ≤ n → drop n xs ≡ []
  drop-all zero [] h = refl
  drop-all zero (x ∷ xs) h = absurd (omega arith)
  drop-all (suc n) [] h = refl
  drop-all (suc n) (x ∷ xs) h = drop-all n xs (omega arith)

  take-all : (n : ℕ) (xs : List A) → length xs ≤ n → take n xs ≡ xs
  take-all zero [] h = refl
  take-all zero (x ∷ xs) h = absurd (omega arith)
  take-all (suc n) [] h = refl
  take-all (suc n) (x ∷ xs) h = ap (λ l. x ∷ l) (take-all n xs (omega arith))

  take-add : (n m : ℕ) (xs : List A) → take n xs ++ take m (drop n xs) ≡ take (n + m) xs
  take-add zero m xs = ap (λ n. take n xs) (omega arith)
  take-add (suc n) zero [] = ap (λ k. take k []) (suc_add n zero)
  take-add (suc n) (suc m) [] = ap (λ k. take k []) (suc_add n (suc m))
  take-add (suc n) m (x ∷ xs) =
      ap (λ l. x ∷ l) (take-add n m xs) ∙ ap (λ k. take k (x ∷ xs)) (suc_add n m)

  drop-add : (n m : ℕ) (xs : List A) → drop m (drop n xs) ≡ drop (n + m) xs
  drop-add zero m xs = ap (λ n. drop n xs) (omega arith)
  drop-add (suc n) zero [] = ap (λ k. drop k []) (suc_add n zero)
  drop-add (suc n) (suc m) [] = ap (λ k. drop k []) (suc_add n (suc m))
  drop-add (suc n) m (x ∷ xs) = drop-add n m xs ∙ ap (λ k. drop k (x ∷ xs)) (suc_add n m)

  -- The two tests of `listLocks` change nothing where a slice would do.
  start_lem : (o : ℕ) (xs : List A) → (if leb (length xs) o then [] else drop o xs) ≡ drop o xs
  start_lem o xs = elim (Bool-cases (leb (length xs) o)) [
    | inl past ↦ let h : length xs ≤ o = ground arith in rw past (sym (drop-all o xs h))
    | inr within ↦ rw within refl
  ]

  limit_lem :
      (l : ℕ) (xs : List A)
      → 0 < l
      → (if ltb_ℤ (pos 0) (pos l) && ltb_ℤ (pos l) (pos (length xs)) then take l xs else xs)
        ≡ take l xs
  limit_lem l xs h = elim (Bool-cases (ltb_ℤ (pos l) (pos (length xs)))) [
    | inl cut ↦ let c : ltb_ℤ (pos 0) (pos l) ≡ true = ground arith in rw (c, cut) refl
    | inr whole ↦
        let start : ltb_ℤ (pos 0) (pos l) ≡ true = ground arith in
        let c : length xs ≤ l = ground arith in rw (start, whole) (sym (take-all l xs c))
  ]

-- A page with a limit is a piece of the list.
page-take :
    (vs : List View) (offset limit : ℕ)
    → 0 < limit
    → page vs (pos offset) (pos limit) ≡ take limit (drop offset vs)
unfolding page
page-take vs o l h =
    ap
      (λ rest.
        if ltb_ℤ (pos 0) (pos l) && ltb_ℤ (pos l) (pos (length rest)) then take l rest else rest)
      (start_lem o vs)
    ∙ limit_lem l (drop o vs) h

-- Pages with positive limits that follow each other, put together, are the longer page: nothing is
-- shown twice or left out.
pages_tile :
    (vs : List View) (offset first second : ℕ)
    → 0 < first
    → 0 < second
    → page vs (pos offset) (pos first) ++ page vs (pos (offset + first)) (pos second)
      ≡ page vs (pos offset) (pos (first + second))
pages_tile vs o l m hl hm =
    rw
      (
        page-take vs o l hl,
        page-take vs (o + l) m hm,
        page-take vs o (l + m) (omega arith),
        sym (drop-add o l vs),
      )
      (take-add l m (drop o vs))

-- What `acquire` makes of its request: a wait whose context ends after a time that is positive and
-- ten minutes at most, no limit just where the request does not wait, or a refusal of the request.
abbrev pub IsAcquireLimit : Bool → Result (Option Duration) → Type 0
IsAcquireLimit waits (ok none) = waits ≡ false
IsAcquireLimit waits (ok (some d)) = (waits ≡ true) × (pos 1 ≤ℤ d) × (d ≤ℤ minutes 10)
IsAcquireLimit waits (err e) = (waits ≡ true) × (code_of e ≡ ErrorCode.invalid)

abbrev pub IsEventLimit : Result Duration → Type 0
IsEventLimit (ok d) = (pos 1 ≤ℤ d) × (d ≤ℤ minutes 10)
IsEventLimit (err e) = code_of e ≡ ErrorCode.invalid

wait_limit-IsAcquireLimit : (parsed : Option Duration) → IsAcquireLimit true (wait_limit parsed)
wait_limit-IsAcquireLimit none = (refl, refl)
wait_limit-IsAcquireLimit (some d) = elim (Bool-cases (ltb_ℤ d (pos 0) || ltb_ℤ (minutes 5) d)) [
  | inl bad ↦ rw bad (refl, refl)
  | inr good ↦ elim (Bool-cases (ltb_ℤ (pos 0) d)) [
    | inl positive ↦ rw (good, positive) (refl, ground arith, ground arith)
    | inr nought ↦ rw (good, nought) (refl, ground arith, ground arith)
  ]
]

event_limit-IsEventLimit : (parsed : Option Duration) → IsEventLimit (event_limit parsed)
event_limit-IsEventLimit none = refl
event_limit-IsEventLimit (some d) = elim (Bool-cases (leb_ℤ d (pos 0) || ltb_ℤ (minutes 10) d)) [
  | inl bad ↦ rw bad refl
  | inr good ↦ rw good (ground arith, ground arith)
]

acquire_limit-IsAcquireLimit :
    (codec : Codec) (request : AcquireRequest)
    → IsAcquireLimit request.wait (acquire_limit codec request)
unfolding acquire_limit
acquire_limit-IsAcquireLimit codec request = elim (Bool-cases request.wait) [
  | inr now ↦ rw now refl
  | inl wait ↦ elim (Bool-cases (is_empty request.wait_timeout)) [
    | inl empty ↦ rw (wait, empty) (refl, ground arith, ground arith)
    | inr given ↦
        rw (wait, given) (wait_limit-IsAcquireLimit (codec.parse_duration request.wait_timeout))
  ]
]

-- Every wait of a handler ends: what acquire and watch make of any request is a limit that is
-- positive and ten minutes at most, no wait, or a refusal with the code of an invalid request.
waits_end :
    (codec : Codec) (a : AcquireRequest) (w : WatchRequest)
    → IsAcquireLimit a.wait (acquire_limit codec a) × IsEventLimit (watch_limit codec w)
unfolding watch_limit
waits_end codec a w = (
  acquire_limit-IsAcquireLimit codec a,
  elim (Bool-cases (is_empty w.timeout)) [
    | inl empty ↦ rw empty (ground arith, ground arith)
    | inr given ↦ rw given (event_limit-IsEventLimit (codec.parse_duration w.timeout))
  ],
)
