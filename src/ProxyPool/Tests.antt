-- ===== src/ProxyPool/Tests.antt =====
-- Runs of the proxy pool at concrete inputs, and its theorems there.
use tmp_cf_ytb_admin.Base.{ℕ, ◌≡◌, refl, Option, none, some, [], ◌∷◌, arith, suc, zero, get_elem?}
use tmp_cf_ytb_admin.ProxyPool.{offline, Proxy, Manager, Reply, responded, fresh, scan, next_proxy}
use tmp_cf_ytb_admin.ProxyPool.Rotation.{AllOnline, picks, picks-rotate}

abbrev down : Proxy
down = record (fresh "c") { status = offline; fail_count = 1 }

-- The first and the third of three proxies are offline; the next request looks at the third.
abbrev three : Manager
three = record {
  proxies = down ∷ fresh "b" ∷ down ∷ [];
  current_index = 2;
  probe_url = "https://www.google.com";
  probe_interval = 30;
  timeout = 10;
}

abbrev healthy : Manager
healthy = record three { proxies = fresh "a" ∷ fresh "b" ∷ fresh "c" ∷ [] }

abbrev dead : Manager
dead = record three { proxies = down ∷ down ∷ down ∷ [] }

three_picks : next_proxy three ≡ (record three { current_index = 2 }, some 1)
unfolding next_proxy scan
three_picks = refl

dead_picks : (next_proxy dead).1 ≡ none
unfolding next_proxy scan
dead_picks = refl

healthy_up : AllOnline healthy.proxies
healthy_up zero h = refl
healthy_up (suc zero) h = refl
healthy_up (suc (suc zero)) h = refl
healthy_up (suc (suc (suc i))) h = absurd (omega arith)

picks-rotate_example : get_elem? (picks 5 healthy) 4 ≡ some (some 0)
picks-rotate_example = picks-rotate 5 4 healthy healthy_up (omega arith) (omega arith)

abbrev gateway_error : Option ℕ → Reply
gateway_error _ = responded 502
