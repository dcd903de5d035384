-- ===== src/Redis.antt =====
-- The commands of Redis that the stores use, as a server of unknown state: what the commands answer, and
-- what their documentation says of them. A time is a number of milliseconds. A key is there until the time
-- that it was set to expire at, and gone from that millisecond on. A script or a command sees one reading of the server's clock.
use hhc_line_function_bot.Prelude.{
  ap, eq_iff, eq_self, leb→le, ◌∙◌, ◌≢◌, ◌<◌, ℕ, ◌+◌, ◌≤◌, String, ◌≡◌, refl, Bool, true, false,
  Option, none, some, [], arith, ◌==◌, leb, if◌then◌else◌,
}
use hhc_line_function_bot.JsMap.{JsMap, drop_if, get, set, delete, get-set, get-delete}

-- A value, and the time at which it expires.
abbrev pub Item : Type 0
Item = String × ℕ

abbrev pub has_passed : ℕ → Item → Bool
has_passed now (value, until) = leb until now

pub record Redis : Type 1 where
  pub State : Type 0
  pub empty : State
  -- `GET` with `PTTL`: the value under a key at a time, and when it expires.
  pub read : State → ℕ → String → Option Item
  -- `PSETEX` (`SET` with `PX`) at a time: the key, the milliseconds to live and the value.
  pub psetex : State → ℕ → String → ℕ → String → State
  -- `DEL`.
  pub del : State → String → State

pub record IsLawful (r : Redis) : Type 0 where
  pub read-empty : (now : ℕ) (k : String) → r.read r.empty now k ≡ none
  pub read-later :
      (s : r.State) (now later : ℕ) (k : String)
      → now ≤ later
      → r.read s later k ≡ drop_if (has_passed later) (r.read s now k)
  pub read-psetex :
      (s : r.State) (now : ℕ) (k : String) (ttl : ℕ) (v : String) (j : String)
      → 1 ≤ ttl
      → r.read (r.psetex s now k ttl v) now j
        ≡ (if k == j then some (v, now + ttl) else r.read s now j)
  pub read-del :
      (s : r.State) (k : String) (now : ℕ) (j : String)
      → r.read (r.del s k) now j ≡ (if k == j then none else r.read s now j)

module _ (r : Redis) where
  set_found : Option Item → r.State → ℕ → String → ℕ → String → r.State × Bool
  set_found (some item) s now k ttl v = (s, false)
  set_found none s now k ttl v = (r.psetex s now k ttl v, true)

  -- `SET` with `NX` and `PX`, and whether the key was set.
  unfoldable pub set_nx : r.State → ℕ → String → ℕ → String → r.State × Bool
  unfolding set_found
  set_nx s now k ttl v = set_found (r.read s now k) s now k ttl v

  pub set_nx_new :
      (s : r.State) (now : ℕ) (k : String) (ttl : ℕ) (v : String)
      → r.read s now k ≡ none
      → set_nx s now k ttl v ≡ (r.psetex s now k ttl v, true)
  unfolding set_nx set_found
  set_nx_new s now k ttl v h = rw h refl

  pub set_nx_old :
      (s : r.State) (now : ℕ) (k : String) (ttl : ℕ) (v : String) {i : Item}
      → r.read s now k ≡ some i
      → set_nx s now k ttl v ≡ (s, false)
  unfolding set_nx set_found
  set_nx_old s now k ttl v h = rw h refl

read_twice :
    (now later : ℕ) (o : Option Item)
    → now ≤ later
    → drop_if (has_passed later) o ≡ drop_if (has_passed later) (drop_if (has_passed now) o)
read_twice now later none le = refl
read_twice now later (some (v, until)) le = ground arith

-- What a read at a later time gives.
module _ (r : Redis) (law : IsLawful r) where
  -- The key has the value until `until` at least.
  abbrev pub Holds : r.State → ℕ → String → String → ℕ → Type 0
  Holds s now k v until = (e : ℕ) × (r.read s now k ≡ some (v, e)) × (until ≤ e)

  pub Holds-later :
      (s : r.State) (now later : ℕ) (k v : String) (until : ℕ)
      → now ≤ later
      → later < until
      → Holds s now k v until
      → Holds s later k v until
  Holds-later s now later k v until le early (e, h, kept) =
      (e, law.read-later s now later k le ∙ ap (drop_if (has_passed later)) h ∙ stays e kept, kept)
    where
      stays : (e : ℕ) → until ≤ e → drop_if (has_passed later) (some (v, e)) ≡ some (v, e)
      stays e kept = ground (arith, leb→le e later)

  pub Holds-psetex :
      (s : r.State) (now : ℕ) (k : String) (ttl : ℕ) (v : String)
      → 1 ≤ ttl
      → Holds (r.psetex s now k ttl v) now k v (now + ttl)
  Holds-psetex s now k ttl v pos =
      (now + ttl, law.read-psetex s now k ttl v k pos ∙ ground (arith, eq_self k), omega arith)

  pub Holds-psetex_other :
      (s : r.State) (now : ℕ) (k : String) (ttl : ℕ) (v j w : String) (until : ℕ)
      → 1 ≤ ttl
      → k ≢ j
      → Holds s now j w until
      → Holds (r.psetex s now k ttl v) now j w until
  Holds-psetex_other s now k ttl v j w until pos differs (e, h, kept) =
      (e, law.read-psetex s now k ttl v j pos ∙ ground (arith, eq_iff k j), kept)

  pub Holds-del_other :
      (s : r.State) (now : ℕ) (k j w : String) (until : ℕ)
      → k ≢ j
      → Holds s now j w until
      → Holds (r.del s k) now j w until
  Holds-del_other s now k j w until differs (e, h, kept) =
      (e, law.read-del s k now j ∙ ground (arith, eq_iff k j), kept)

  pub absent-later :
      (s : r.State) (now later : ℕ) (k : String)
      → now ≤ later
      → r.read s now k ≡ none
      → r.read s later k ≡ none
  absent-later s now later k le h =
      law.read-later s now later k le ∙ ap (drop_if (has_passed later)) h

  -- The key has the item, if the item's time is not over.
  abbrev pub Ends : r.State → ℕ → String → Item → Type 0
  Ends s now k i = r.read s now k ≡ drop_if (has_passed now) (some i)

  pub Ends-later :
      (s : r.State) (now later : ℕ) (k : String) (i : Item)
      → now ≤ later
      → Ends s now k i
      → Ends s later k i
  Ends-later s now later k i le h =
      law.read-later s now later k le ∙ rw h (cc (read_twice now later (some i) le))

-- A server of a map from keys to values with their times of expiry.
abbrev pub map_redis : Redis
map_redis = record {
  State = JsMap Item;
  empty = [];
  read = λ s now k. drop_if (has_passed now) (get k s);
  psetex = λ s now k ttl v. set k (v, now + ttl) s;
  del = λ s k. delete k s;
}

pub map_redis-IsLawful : IsLawful map_redis
unfolding get
map_redis-IsLawful = record {
  read-empty = λ now k. refl;
  read-later = λ s now later k le. read_twice now later (get k s) le;
  read-psetex = λ s now k ttl v j pos. ground (arith, get-set k j (v, now + ttl) s);
  read-del = λ s k now j. ground (arith, get-delete k j s);
}
