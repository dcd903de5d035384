-- ===== src/Helper/Circuit.antt =====
-- The circuit of the primary model provider, src/helper-agent/provider-failover.ts:
-- `createRedisProviderCircuit` and its scripts. `now` is the server's clock in one call.
use Prim.Native.String.{◌++◌}
use hhc_line_function_bot.Prelude.{
  ℕ, String, Bool, true, false, not, ◌&&◌, Option, none, some, ◌==◌, if◌then◌else◌,
}
use hhc_line_function_bot.Redis.{Item, Redis, set_nx}

abbrev pub cooldown : String → String
cooldown prefix = prefix ++ ":cooldown"

abbrev pub recovering : String → String
recovering prefix = prefix ++ ":recovering"

abbrev pub probe : String → String
probe prefix = prefix ++ ":probe"

-- `GET` gives the text.
abbrev pub is_value : Option Item → String → Bool
is_value none v = false
is_value (some (w, until)) v = w == v

abbrev pub is_there : Option Item → Bool
is_there none = false
is_there (some item) = true

module _ (r : Redis) (prefix : String) where
  -- `EXISTS`.
  abbrev pub exists : r.State → ℕ → String → Bool
  exists s now k = is_there (r.read s now k)

  unfoldable pub acquire : ℕ → String → r.State → r.State × Option String
  acquire now token s =
      if exists s now (cooldown prefix)
      then (s, none)
      else if not (exists s now (recovering prefix))
      then (s, some "closed")
      else let (s', done) = set_nx r s now (probe prefix) 30000 token in
        (s', if done then some token else none)

  -- Is the call of the lease refused: it is a probe's, and the probe is not that one.
  abbrev pub is_stale : ℕ → String → r.State → Bool
  is_stale now lease s =
      not (lease == "closed") && not (is_value (r.read s now (probe prefix)) lease)

  unfoldable pub fail : ℕ → String → Bool → r.State → r.State
  fail now lease permanent s =
      if is_stale now lease s
      then s
      else let s1 = r.psetex s now (cooldown prefix) (if permanent then 3600000 else 60000) "1" in
        let s2 = r.psetex s1 now (recovering prefix) 86400000 "1" in r.del s2 (probe prefix)

  unfoldable pub succeed : ℕ → String → r.State → r.State
  succeed now lease s =
      if lease == "closed"
      then s
      else if not (is_value (r.read s now (probe prefix)) lease)
      then s
      else r.del (r.del (r.del s (cooldown prefix)) (recovering prefix)) (probe prefix)
