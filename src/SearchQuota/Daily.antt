-- ===== src/SearchQuota/Daily.antt =====
-- No more searches in a day than the limit: what the counter of one subject and day says of the
-- reservations that were granted on it.
use Prim.Native.Char.{Char, code}
use Prim.Native.String.{◌++◌}
use text.Mathlib.TextLemmas.{append_cancel_left, cons-append}
use mathlib.Core.Path.{subst}
use hhc_line_function_bot.Prelude.{
  sym, ℕ, ◌+◌, ◌≤◌, ◌<◌, String, ◌≡◌, refl, ap, ◌∙◌, ◌≢◌, ◌⊎◌, inl, inr, Bool, true, false, Option,
  none, some, List, [], ◌∷◌, arith, ◌==◌, eq_iff, leb, le→leb, if◌then◌else◌, Bool-cases,
  Option-cases,
}
use hhc_line_function_bot.Redis.{
  Item, Redis, IsLawful, Holds, Holds-later, Holds-psetex, Holds-psetex_other, absent-later,
}
use hhc_line_function_bot.SearchQuota.{
  keys_of, key_prefix, Keys, Texts, number_at, used_so_far, take_one, reserve_unseen,
  reserve_script,
}

-- A call of the script: its time, its keys and its limit.
pub record Call : Type 0 where
  pub now : ℕ
  pub keys : Keys
  pub limit : ℕ

abbrev pub one : Bool → ℕ
one true = 1
one false = 0

module _ (r : Redis) (law : IsLawful r) (t : Texts) (decimal : (n : ℕ) → t.number_of (t.show n) ≡ n)
    (counter : String) (most start : ℕ) where
  -- A call on the counter counts if it is granted.
  abbrev pub counts : Call → Bool → ℕ
  counts c done = if c.keys.counter == counter then one done else 0

  unfoldable pub granted : r.State → List Call → ℕ
  granted s [] = 0
  granted s (c ∷ cs) =
      let (s', done) = reserve_script r t c.now c.keys c.limit s in counts c done + granted s' cs

  abbrev day_over : ℕ
  day_over = start + 172800000

  -- The counter says that `used` are used, of which `n` were granted.
  abbrev Counting : ℕ → r.State → ℕ → ℕ → Type 0
  Counting n s now used = Holds r law s now counter (t.show used) day_over × (n ≤ used) × (n ≤ most)

  abbrev Counted : ℕ → r.State → ℕ → Type 0
  Counted n s now = ((r.read s now counter ≡ none) × (n ≡ 0)) ⊎ ((used : ℕ) × Counting n s now used)

  Counted-other :
      (n : ℕ) (s : r.State) (now : ℕ) (k v : String)
      → k ≢ counter
      → Counted n s now
      → Counted n (r.psetex s now k 172800000 v) now
  Counted-other n s now k v differs (inl (gone, e)) = inl (
    law.read-psetex s now k 172800000 v counter (omega arith)
        ∙ ground (arith, eq_iff k counter, gone),
    e,
  )
  Counted-other n s now k v differs (inr (used, (h, le, le'))) = inr (
    used,
    (
      Holds-psetex_other r law s now k 172800000 v counter (t.show used) day_over (omega arith)
          differs h,
      le,
      le',
    ),
  )

  Counted-later :
      (n : ℕ) (s : r.State) (low now : ℕ)
      → low ≤ now
      → now < day_over
      → Counted n s low
      → Counted n s now
  Counted-later n s low now le early (inl (gone, e)) =
      inl (absent-later r law s low now counter le gone, e)
  Counted-later n s low now le early (inr (used, (h, p, q))) =
      inr (used, (Holds-later r law s low now counter (t.show used) day_over le early h, p, q))

  -- Reading the counter, or starting it.
  used-Counting :
      (n : ℕ) (s : r.State) (now : ℕ) (keys : Keys)
      → keys.counter ≡ counter
      → start ≤ now
      → Counted n s now
      → let (s', used) = used_so_far r t now keys (r.read s now keys.counter) s in
        Counting n s' now used
  unfolding used_so_far
  used-Counting n s now keys e le (inl (gone, z)) =
      let absent : r.read s now keys.counter ≡ none = ap (λ k. r.read s now k) e ∙ gone in
      let v =
        t.show
          (number_at t (r.read s now keys.today) + number_at t (r.read s now keys.yesterday)) in
      let (u, h, kept) = Holds-psetex r law s now counter 172800000 v (omega arith) in
      rw absent (
        (u, ap (λ k. r.read (r.psetex s now k 172800000 v) now counter) e ∙ h, omega arith),
        omega arith,
        omega arith,
      )
  used-Counting n s now keys e le (inr (used, ((u, h, kept), p, q))) =
      let there : r.read s now keys.counter ≡ some (t.show used, u) =
        ap (λ k. r.read s now k) e ∙ h in
      rw there (rw decimal ((u, h, kept), p, q))

  take-Counted :
      (n : ℕ) (s : r.State) (now : ℕ) (keys : Keys) (limit used : ℕ)
      → keys.counter ≡ counter
      → keys.event ≢ counter
      → start ≤ now
      → limit ≤ most
      → Counting n s now used
      → let (s', done) = take_one r t now keys limit (s, used) in Counted (n + one done) s' now
  unfolding take_one
  take-Counted n s now keys limit used e other le bound (held, p, q) =
      elim (Bool-cases (leb limit used)) [
        | inl full ↦ rw full (inr (used, (held, omega arith, omega arith)))
        | inr room ↦ rw room (
            let s1 = r.psetex s now keys.event 172800000 "1" in
            let v = t.show (used + 1) in
            let (u, h, kept) = Holds-psetex r law s1 now counter 172800000 v (omega arith) in
            let left : used < limit = ground (arith, le→leb limit used) in
            inr (
              used + 1,
              (
                (
                  u,
                  ap (λ k. r.read (r.psetex s1 now k 172800000 v) now counter) e ∙ h,
                  omega arith,
                ),
                omega arith,
                omega arith,
              ),
            ))
      ]

  -- A call on the counter.
  ours-Counted :
      (n : ℕ) (s : r.State) (now : ℕ) (keys : Keys) (limit : ℕ)
      → keys.counter ≡ counter
      → keys.event ≢ counter
      → start ≤ now
      → limit ≤ most
      → Counted n s now
      → let (s', done) = reserve_script r t now keys limit s in Counted (n + one done) s' now
  unfolding reserve_script reserve_unseen
  ours-Counted n s now keys limit e other le bound c =
      elim (Option-cases (r.read s now keys.event)) [
        | inr (i, seen) ↦ rw seen (subst (λ k. Counted k s now) (omega arith) c)
        | inl unseen ↦ rw unseen (
            let (s', used) = used_so_far r t now keys (r.read s now keys.counter) s in
            take-Counted n s' now keys limit used e other le bound
              (used-Counting n s now keys e le c))
      ]

  -- A call on another counter.
  other-Counted :
      (n : ℕ) (s : r.State) (now : ℕ) (keys : Keys) (limit : ℕ)
      → keys.counter ≢ counter
      → keys.event ≢ counter
      → Counted n s now
      → Counted n (reserve_script r t now keys limit s).0 now
  unfolding reserve_script reserve_unseen take_one
  other-Counted n s now keys limit differs other c = elim (Option-cases (r.read s now keys.event)) [
    | inr (i, seen) ↦ rw seen c
    | inl unseen ↦ rw unseen (
        let (s', used) = used_so_far r t now keys (r.read s now keys.counter) s in
        let c' : Counted n s' now = read_on (r.read s now keys.counter) in
        elim (Bool-cases (leb limit used)) [
          | inl full ↦ rw full c'
          | inr room ↦ rw room (
              Counted-other n _ now keys.counter _ differs
                (Counted-other n s' now keys.event "1" other c'))
        ])
  ]
    where
      read_on : (o : Option Item) → Counted n (used_so_far r t now keys o s).0 now
      read_on (some i) = unfold used_so_far in c
      read_on none = unfold used_so_far in Counted-other n s now keys.counter _ differs c

  -- The calls, at times that do not go back: none notes an event under the counter's key, and those on the
  -- counter have the limit `most` at most.
  abbrev pub AreFair : ℕ → List Call → Type 0
  AreFair low [] = Unit
  AreFair low (c ∷ cs) =
      (low ≤ c.now)
      × (c.now < day_over)
      × (c.keys.event ≢ counter)
      × (c.keys.counter ≡ counter → c.limit ≤ most)
      × AreFair c.now cs

  counted : (n : ℕ) (s : r.State) (now : ℕ) → Counted n s now → n ≤ most
  counted n s now (inl (gone, z)) = omega arith
  counted n s now (inr (used, (h, p, q))) = q

  step-Counted :
      (n : ℕ) (s : r.State) (c : Call)
      → c.keys.event ≢ counter
      → (c.keys.counter ≡ counter → c.limit ≤ most)
      → start ≤ c.now
      → Counted n s c.now
      → let (s', done) = reserve_script r t c.now c.keys c.limit s in
        Counted (n + counts c done) s' c.now
  step-Counted n s c other bound le k = elim (Bool-cases (c.keys.counter == counter)) [
    | inl ours ↦
        let e : c.keys.counter ≡ counter = ground (arith, eq_iff c.keys.counter counter) in
        rw ours (ours-Counted n s c.now c.keys c.limit e other le (bound e) k)
    | inr others ↦
        let d : c.keys.counter ≢ counter = λ e. ground (arith, eq_iff c.keys.counter counter) in
        rw others (
          subst (λ x. Counted x (reserve_script r t c.now c.keys c.limit s).0 c.now) (omega arith)
            (other-Counted n s c.now c.keys c.limit d other k))
  ]

  granted-Counted :
      (n low : ℕ) (s : r.State) (cs : List Call)
      → start ≤ low
      → AreFair low cs
      → Counted n s low
      → n + granted s cs ≤ most
  unfolding granted
  granted-Counted n low s [] le f k = let p = counted n s low k in omega arith
  granted-Counted n low s (c ∷ cs) le (after, early, other, bound, f) k =
      let (s', done) = reserve_script r t c.now c.keys c.limit s in
      let k' =
        step-Counted n s c other bound (omega arith) (Counted-later n s low c.now after early k) in
      let rest = granted-Counted (n + counts c done) c.now s' cs (omega arith) f k' in
      omega (arith, rest)

  -- The limit of a day. Of a server that keeps to the documented behaviour of the commands, and decimal
  -- texts that can be read back: take the counter of one subject and day, which is not there at the time
  -- `start`, and any calls of `RESERVE` in the two days that follow, at times that do not go back, of which
  -- none notes an event under the counter's key. If the calls on the counter have limits of `most` at most,
  -- no more than `most` of them are granted, whatever the old counters say.
  pub granted_bound :
      (s : r.State) (cs : List Call)
      → r.read s start counter ≡ none
      → AreFair start cs
      → granted s cs ≤ most
  granted_bound s cs gone f =
      let b = granted-Counted 0 start s cs (omega arith) f (inl (gone, refl)) in omega (arith, b)

-- The code of the second character.
second : String → ℕ
second (String.◌∷◌ a (String.◌∷◌ b s)) = code b
second _ = 0

second-append : (a b : Char) (s u : String) → second (String.◌∷◌ a (String.◌∷◌ b s) ++ u) ≡ code b
unfolding second
second-append a b s u = rw (cons-append, cons-append) refl

-- No event is noted under a counter's key.
pub event-not_counter :
    (t : Texts) (r : Redis) (prefix profile subject other event_id : String) (now later : ℕ)
    → (keys_of r t prefix profile subject event_id now).event
      ≢ (keys_of r t prefix profile other event_id later).counter
unfolding keys_of second
event-not_counter t r prefix profile subject other event_id now later e =
    let tails = append_cancel_left (key_prefix r t prefix profile) _ _ e in
    let letters : b'e' ≡ b't' =
      sym (second-append ":" "e" "vent:" (t.digest event_id))
      ∙ ap second tails
      ∙ second-append ":" "t" "aipei:" (t.day_of (later + 28800000) ++ ":" ++ t.digest other) in
    omega (arith, letters)
