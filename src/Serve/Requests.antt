-- ===== src/Serve/Requests.antt =====
-- serve.go: processAndEnsureCached and fillCache, as steps of requests that run side by side. Between
-- two steps of one request, other requests may take theirs, and the entry of the cache may expire.
use syver.Prelude.{ℕ, suc, Bool, false, List, [], ◌∷◌, Option, none, some, if◌then◌else◌, ltb, ◌==◌}
use syver.Value.{ℤ, pos, negsuc}
use syver.Resource.Results.{TestResult}

abbrev pub Groups : Type 0
Groups = List (List TestResult)

-- Where a request stands: before its first look at the cache, before `syverMu.Lock()`, between that
-- and the second look, in `h.validate` (which is the sweep of that number), or behind its return.
pub data Phase : Type 0 where
  arrived waiting holding : Phase
  sweeping : ℕ → Phase
  answered : Groups → Phase

-- `cache` is the entry "res", if it is there and has not expired; `lock` is the request that holds
-- `syverMu`; `sweeps` counts the calls of `h.validate`.
pub record Health : Type 0 where
  pub cache : Option Groups
  pub lock : Option ℕ
  pub sweeps : ℕ
  pub phase : ℕ → Phase

unfoldable pub set_phase : (ℕ → Phase) → ℕ → Phase → ℕ → Phase
set_phase phases t p u = if t == u then p else phases u

-- `cacheEnabled`: the duration is in nanoseconds.
unfoldable pub cache_enabled : ℤ → Bool
cache_enabled (pos n) = ltb 0 n
cache_enabled (negsuc n) = false

-- `cachedResults`
unfoldable pub cached_results : Bool → Option Groups → Option Groups
cached_results enabled cache = if enabled then cache else none

pub data Event : Type 0 where
  step : ℕ → Event
  expire : Event

-- The first look at the cache.
unfoldable pub look : ℕ → Health → Option Groups → Health
unfolding set_phase
look t h (some groups) = record h { phase = set_phase h.phase t (answered groups) }
look t h none = record h { phase = set_phase h.phase t waiting }

-- The second look, behind the lock: `defer h.syverMu.Unlock()` where it finds the entry, and else
-- the call of `h.validate`.
unfoldable pub look_again : ℕ → Health → Option Groups → Health
unfolding set_phase
look_again t h (some groups) = record h {
  lock = none;
  phase = set_phase h.phase t (answered groups);
}
look_again t h none = record h {
  sweeps = suc h.sweeps;
  phase = set_phase h.phase t (sweeping h.sweeps);
}

-- `syverMu.Lock()`: a request waits while another one holds the lock.
unfoldable pub take_lock : ℕ → Health → Option ℕ → Health
unfolding set_phase
take_lock t h none = record h { lock = some t; phase = set_phase h.phase t holding }
take_lock t h (some u) = h

-- `enabled` is `cacheEnabled()`, and `sweep` what each call of `h.validate` answers.
module _ (enabled : Bool) (sweep : ℕ → Groups) where
  -- The next step of request `t`, which stands at the given phase.
  unfoldable pub advance_from : ℕ → Health → Phase → Health
  unfolding set_phase cached_results look look_again take_lock
  advance_from t h arrived = look t h (cached_results enabled h.cache)
  advance_from t h waiting = take_lock t h h.lock
  advance_from t h holding = look_again t h (cached_results enabled h.cache)
  advance_from t h (sweeping n) = record h {
    cache = (if enabled then some (sweep n) else h.cache);
    lock = none;
    phase = set_phase h.phase t (answered (sweep n));
  }
  advance_from t h (answered groups) = h

  unfoldable pub advance : ℕ → Health → Health
  unfolding advance_from
  advance t h = advance_from t h (h.phase t)

  unfoldable pub happen : Event → Health → Health
  unfolding advance
  happen (step t) h = advance t h
  happen expire h = record h { cache = none }

  unfoldable pub run_events : List Event → Health → Health
  unfolding happen
  run_events [] h = h
  run_events (e ∷ es) h = run_events es (happen e h)

-- No request has looked yet, and nothing is stored.
abbrev pub cold : Health
cold = record { cache = none; lock = none; sweeps = 0; phase = λ t. arrived }
