-- ===== src/Receipts/Refinement.antt =====
-- The Redis store refines the in-memory store: what one holds under a key is the image of what the other
-- does, at every time, and every call keeps it so and gives the same answer.
use Prim.Native.String.{◌++◌}
use mathlib.Core.Path.{subst}
use text.Mathlib.TextLemmas.{append_cancel_left}
use hhc_line_function_bot.Prelude.{
  ℕ, ◌+◌, ◌≤◌, String, ◌≡◌, refl, sym, ap, ◌∙◌, ◌≢◌, Bool, true, false, Option, none, some, arith,
  ◌==◌, eq_iff, if◌then◌else◌, leb→le, le→leb,
}
use hhc_line_function_bot.JsMap.{get, set, drop_if, Distinct, get-set, set-Distinct, sweep-Distinct}
use hhc_line_function_bot.Redis.{Item, has_passed, Redis, IsLawful}
use hhc_line_function_bot.Receipts.{
  Receipt, Entry, seen, receipt, Clock, Store, expiry, expired, current,
}
use hhc_line_function_bot.Receipts.Ownership.{get-current}
use hhc_line_function_bot.Receipts.Scripts.{Stored, Codec}

unfoldable pub stored_of : Receipt → Stored
stored_of q = record {
  owner = q.owner;
  operation_id = q.operation_id;
  phase = q.phase;
  delivery = q.delivery;
  lease_until = q.lease_until;
  retention_ms = some q.retention_ms;
}

-- What JSON is relied on for: what is written is read back, and no receipt is written as `1`.
pub record IsCodec (codec : Codec) : Type 0 where
  pub decode-encode : (q : Stored) → codec.decode (codec.encode q) ≡ some q
  pub encode-not_one : (q : Stored) → codec.encode q ≢ "1"

unfoldable pub image : Codec → Entry → Item
unfolding stored_of
image codec (seen until) = ("1", until)
image codec (receipt q) = (codec.encode (stored_of q), q.expires_at)

-- The calls of one reading.
abbrev pub at : ℕ → Clock
at now = record { first = now; second = now; third = now }

abbrev pub images : Codec → Option Entry → Option Item
images codec none = none
images codec (some e) = some (image codec e)

image-expiry : (codec : Codec) (e : Entry) → (image codec e).1 ≡ expiry e
unfolding image
image-expiry codec (seen until) = refl
image-expiry codec (receipt q) = refl

images-later :
    (codec : Codec) (now later : ℕ) (o : Option Entry)
    → now ≤ later
    → drop_if (has_passed later) (images codec (drop_if (expired now) o))
      ≡ images codec (drop_if (expired later) o)
images-later codec now later none le = refl
images-later codec now later (some e) le = ground (
  arith,
  image-expiry codec e,
  leb→le (expiry e) now,
  leb→le (expiry e) later,
  le→leb (expiry e) later,
)

-- A receipt is kept for a millisecond at least.
abbrev pub IsRetained : Entry → Type 0
IsRetained (seen until) = Unit
IsRetained (receipt q) = 1 ≤ q.retention_ms

abbrev pub Retained : Store → Type 0
Retained m = (k : String) (e : Entry) → get k m ≡ some e → IsRetained e

module _ (r : Redis) (law : IsLawful r) (codec : Codec) (prefix : String) where
  abbrev key : String → String
  key k = prefix ++ ":webhook-event:v1:" ++ k

  key_inj : (k j : String) → key k ≡ key j → k ≡ j
  key_inj k j e =
      append_cancel_left ":webhook-event:v1:" k j
        (append_cancel_left prefix (":webhook-event:v1:" ++ k) (":webhook-event:v1:" ++ j) e)

  same_key : (k j : String) → (key k == key j) ≡ (k == j)
  same_key k j =
      let keys : k ≡ j → key k ≡ key j = λ e. ap key e in
      ground (arith, eq_iff (key k) (key j), eq_iff k j, key_inj k j)

  -- What Redis holds at a time is the image of what the in-memory store does.
  abbrev pub Agrees : ℕ → Store → r.State → Type 0
  Agrees now m s =
      (k : String) → r.read s now (key k) ≡ images codec (drop_if (expired now) (get k m))

  abbrev pub Refines : ℕ → Store → r.State → Type 0
  Refines now m s = Distinct m × Retained m × Agrees now m s

  pub swept :
      (now : ℕ) (m : Store) (s : r.State) (k : String)
      → Refines now m s
      → r.read s now (key k) ≡ images codec (get k (current now m))
  swept now m s k (d, ret, a) = a k ∙ ap (images codec) (sym (get-current now k m d))

  unswept : (now : ℕ) (o : Option Entry) {e : Entry} → drop_if (expired now) o ≡ some e → o ≡ some e
  unswept now none h = cc
  unswept now (some e) h = ground arith

  current-Retained : (now : ℕ) (m : Store) → Distinct m → Retained m → Retained (current now m)
  current-Retained now m d ret k e g =
      ret k e (unswept now (get k m) {e = e} (sym (get-current now k m d) ∙ g))

  pub later-Refines :
      (now later : ℕ) (m : Store) (s : r.State) → now ≤ later → Refines now m s → Refines later m s
  later-Refines now later m s le (d, ret, a) = (
    d,
    ret,
    λ k.
        law.read-later s now later (key k) le
        ∙ ap (drop_if (has_passed later)) (a k)
        ∙ images-later codec now later (get k m) le,
  )

  pub sweep-Refines :
      (now : ℕ) (m : Store) (s : r.State) → Refines now m s → Refines now (current now m) s
  sweep-Refines now m s (d, ret, a) = (
    sweep-Distinct (expired now) m d,
    current-Retained now m d ret,
    λ k.
        a k
        ∙ ap (images codec)
            (dropped now (get k m) ∙ ap (drop_if (expired now)) (sym (get-current now k m d))),
  )
    where
      dropped :
          (now : ℕ) (o : Option Entry)
          → drop_if (expired now) o ≡ drop_if (expired now) (drop_if (expired now) o)
      dropped now none = refl
      dropped now (some e) = ground arith

  put-IsRetained :
      (b : Bool) (e x : Entry) (o : Option Entry)
      → IsRetained e
      → (o ≡ some x → IsRetained x)
      → (if b then some e else o) ≡ some x
      → IsRetained x
  put-IsRetained true e x o kept other h = subst IsRetained (ground arith) kept
  put-IsRetained false e x o kept other h = other h

  image-stays :
      (now : ℕ) (e : Entry) (ttl : ℕ) (v : String)
      → 1 ≤ ttl
      → image codec e ≡ (v, now + ttl)
      → some (v, now + ttl) ≡ images codec (drop_if (expired now) (some e))
  image-stays now e ttl v pos im =
      let until : expiry e ≡ now + ttl = sym (image-expiry codec e) ∙ ap (λ x. x.1) im in
      let live : expired now e ≡ false = ground (arith, leb→le (expiry e) now) in
      rw live (ap some (sym im))

  put_agrees :
      (b : Bool) (now : ℕ) (e : Entry) (ttl : ℕ) (v : String) (i : Option Item) (o : Option Entry)
      → 1 ≤ ttl
      → image codec e ≡ (v, now + ttl)
      → i ≡ images codec (drop_if (expired now) o)
      → (if b then some (v, now + ttl) else i)
        ≡ images codec (drop_if (expired now) (if b then some e else o))
  put_agrees true now e ttl v i o pos im h = image-stays now e ttl v pos im
  put_agrees false now e ttl v i o pos im h = h

  -- Writing an entry in memory, and its image on Redis.
  pub write-Refines :
      (now : ℕ) (m : Store) (s : r.State) (k : String) (e : Entry) (ttl : ℕ) (v : String)
      → Refines now m s
      → 1 ≤ ttl
      → image codec e ≡ (v, now + ttl)
      → IsRetained e
      → Refines now (set k e (current now m)) (r.psetex s now (key k) ttl v)
  write-Refines now m s k e ttl v ref pos im kept =
      let (d, ret, a) = sweep-Refines now m s ref in
      (
        set-Distinct k e (current now m) d,
        λ j x g.
            put-IsRetained (k == j) e x (get j (current now m)) kept (ret j x)
              (sym (get-set k j e (current now m)) ∙ g),
        λ j.
            law.read-psetex s now (key k) ttl v (key j) pos
            ∙ (rw (same_key k j, get-set k j e (current now m))
                (put_agrees (k == j) now e ttl v _ (get j (current now m)) pos im (a j))),
      )
