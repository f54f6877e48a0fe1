-- ===== src/Lock/Turns.antt =====
-- What a lock promises, without the program's data: a token or none, a line of waiters, who of them
-- was served, and the calls of `rand.Read`. internal/lock/service.go moves a record like this.
pub mod Flags
pub mod Grants
pub mod Sections
pub mod Endings
pub mod Changes
pub mod Steps
pub mod Order
pub mod Fencing
pub mod Stale
pub mod Unique
use lockd.Prelude.{
  ℕ, suc, ◌≡◌, Bool, true, false, Option, some, List, [], ◌∷◌, ◌++◌, map, Text, nat_eq, length, set,
  contains,
}
use lockd.Lock.Types.{Lock, Waiter}
use lockd.Lock.Lease.{new_token}
use lockd.Lock.Queue.{remove}
use lockd.Lock.Shared.{Shared}

-- Waiters have numbers, in the order in which they came.
pub record Turn : Type 0 where
  pub token : Text
  pub line : List ℕ
  pub served : List Bool
  pub draws : ℕ

-- Who was granted the lock.
abbrev pub granted_flags : List Waiter → List Bool
granted_flags ws = map (λ w. w.granted) ws

abbrev pub turn_of : Shared → Lock → Turn
turn_of s item = record {
  token = item.token;
  line = item.queue;
  served = granted_flags item.waiters;
  draws = s.draws;
}

-- Why a lease ends before its lock is granted again.
pub data Cause : Type 0 where
  expiry given_back theft deletion : Cause

-- `May` says which of these can happen to the lock.
module _ (rand : ℕ → Option (List ℕ)) (May : Cause → Type 0) where
  pub data Move (t : Turn) : Turn → Type 0 where
    -- A draw that failed, or was for another lock.
    wastes : Move t (record t { draws = suc t.draws })
    frees : (c : Cause) → May c → Move t (record t { token = [] })
    -- Only a free lock for which nobody waits is taken by one who comes.
    takes :
        (token : Text)
        → t.token ≡ []
        → t.line ≡ []
        → new_token (rand t.draws) ≡ some token
        → Move t (record t { token = token; draws = suc t.draws })
    -- A free lock is handed to the first of the line.
    serves :
        (token : Text) (a : ℕ) (rest : List ℕ)
        → t.token ≡ []
        → t.line ≡ a ∷ rest
        → contains a rest ≡ false
        → new_token (rand t.draws) ≡ some token
        → Move t (record t {
          token = token;
          line = rest;
          served = set t.served a true;
          draws = suc t.draws;
        })
    -- A steal does not ask whether the lock is free.
    seizes :
        (token : Text)
        → May theft
        → new_token (rand t.draws) ≡ some token
        → Move t (record t { token = token; draws = suc t.draws })
    joins :
        Move t (record t { line = t.line ++ length t.served ∷ []; served = t.served ++ false ∷ [] })
    -- A waiter that gives up, or is told of a failure.
    leaves :
        (a : ℕ)
        → contains a (remove t.line a).1 ≡ false
        → Move t (record t { line = (remove t.line a).1 })
    closes : May deletion → Move t (record t { token = []; line = [] })

  pub data Moves (t : Turn) : Turn → Type 0 where
    stays : Moves t t
    after : {u v : Turn} → Moves t u → Move u v → Moves t v

  pub Moves-trans : {t u v : Turn} → Moves t u → Moves u v → Moves t v
  Moves-trans m stays = m
  Moves-trans m (after n last) = after (Moves-trans m n) last

-- Moves for some causes are moves for more of them.
module _ (rand : ℕ → Option (List ℕ)) {May May' : Cause → Type 0}
    (more : (c : Cause) → May c → May' c) where
  Move-more : {t u : Turn} → Move rand May t u → Move rand May' t u
  Move-more wastes = wastes
  Move-more (frees c m) = frees c (more c m)
  Move-more (takes token idle alone e) = takes token idle alone e
  Move-more (serves token a rest idle e n d) = serves token a rest idle e n d
  Move-more (seizes token m e) = seizes token (more theft m) e
  Move-more joins = joins
  Move-more (leaves a n) = leaves a n
  Move-more (closes m) = closes (more deletion m)

  pub Moves-more : {t u : Turn} → Moves rand May t u → Moves rand May' t u
  Moves-more stays = stays
  Moves-more (after m last) = after (Moves-more m) (Move-more last)
