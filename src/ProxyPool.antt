-- ===== src/ProxyPool.antt =====
-- backend/pkg/proxypool/proxypool.go: the proxy pool of the downloader. A method that changes the
-- manager returns the new one. A proxy is named by its position in the list, which never changes
-- after construction. The transports, the URL parser and the clock belong to the Go library: what
-- a transport answers is the argument `send`, and a parser is the argument `parse`.
pub mod Rotation
pub mod Health
mod Tests
use tmp_cf_ytb_admin.Base.{
  ℕ, zero, suc, ◌+◌, ◌*◌, ◌%◌, ◌^◌, String, str_eq, Bool, true, false, ◌||◌, ◌&&◌, Option, none,
  some, List, [], ◌∷◌, ltb, leb, ◌==◌, if◌then◌else◌, length, get_elem?, modify,
}

pub data ProxyStatus : Type 0 where
  online offline : ProxyStatus

-- `url` is the parsed URL as text; the dedicated transport is known by the proxy's position.
pub record Proxy : Type 0 where
  pub url : String
  pub status : ProxyStatus
  pub fail_count : ℕ
  pub last_check : ℕ

-- Durations are in nanoseconds, as in `time.Duration`.
pub record Manager : Type 0 where
  pub proxies : List Proxy
  pub current_index : ℕ
  pub probe_url : String
  pub probe_interval : ℕ
  pub timeout : ℕ

pub record Config : Type 0 where
  pub proxy_urls : List String
  pub probe_url : String
  pub probe_interval : ℕ
  pub timeout : ℕ

abbrev pub second : ℕ
second = 10 ^ 9

unfoldable pub with_defaults : Config → Config
with_defaults cfg = record cfg {
  probe_url = if str_eq cfg.probe_url "" then "https://www.google.com" else cfg.probe_url;
  probe_interval = if cfg.probe_interval == 0 then 30 * second else cfg.probe_interval;
  timeout = if cfg.timeout == 0 then 10 * second else cfg.timeout;
}

pub data Built (A : Type 0) : Type 0 where
  ok : A → Built A
  invalid_url : String → Built A

abbrev pub cons_built : Proxy → Built (List Proxy) → Built (List Proxy)
cons_built p (ok ps) = ok (p ∷ ps)
cons_built p (invalid_url u) = invalid_url u

abbrev pub fresh : String → Proxy
fresh u = record { url = u; status = online; fail_count = 0; last_check = 0 }

-- The loop over `cfg.ProxyURLs`; `parse` is `url.Parse`, with `none` for an error.
unfoldable pub build_proxies : (String → Option String) → List String → Built (List Proxy)
build_proxies parse [] = ok []
build_proxies parse (u ∷ us) = elim (parse u) [
  | none ↦ invalid_url u
  | some parsed ↦ cons_built (fresh parsed) (build_proxies parse us)
]

abbrev pub manager_of : Config → Built (List Proxy) → Built Manager
manager_of cfg (invalid_url u) = invalid_url u
manager_of cfg (ok ps) = ok (record {
  proxies = ps;
  current_index = 0;
  probe_url = cfg.probe_url;
  probe_interval = cfg.probe_interval;
  timeout = cfg.timeout;
})

unfoldable pub new_manager : (String → Option String) → Config → Built Manager
unfolding with_defaults build_proxies
new_manager parse cfg =
    manager_of (with_defaults cfg) (build_proxies parse (with_defaults cfg).proxy_urls)

abbrev pub is_online : ProxyStatus → Bool
is_online online = true
is_online offline = false

abbrev pub online_of : Option Proxy → Bool
online_of none = false
online_of (some p) = is_online p.status

abbrev pub online_at : List Proxy → ℕ → Bool
online_at ps i = online_of (get_elem? ps i)

-- The search loop of `nextProxy`: `rounds` is how many of its `len(m.proxies)` rounds are left.
unfoldable pub scan : List Proxy → ℕ → ℕ → ℕ → Option ℕ
scan ps start zero i = none
scan ps start (suc rounds) i =
    let rest = scan ps start rounds (i + 1) in
    let idx = (start + i) % length ps in if online_at ps idx then some idx else rest

abbrev pub advance : Manager → Option ℕ → Manager × Option ℕ
advance m none = (m, none)
advance m (some idx) = (record m { current_index = (idx + 1) % length m.proxies }, some idx)

unfoldable pub next_proxy : Manager → Manager × Option ℕ
next_proxy m =
    if length m.proxies == 0
    then (m, none)
    else advance m (scan m.proxies m.current_index (length m.proxies) 0)

unfoldable pub mark_failure : Proxy → Proxy
mark_failure p =
    let failed = record p { fail_count = p.fail_count + 1 } in
    if leb 1 failed.fail_count then record failed { status = offline } else failed

unfoldable pub mark_success : Proxy → Proxy
mark_success p = record p { fail_count = 0; status = online }

-- What `RoundTrip` of a transport returns: an error, no response and no error, or a status code.
pub data Reply : Type 0 where
  failed nothing : Reply
  responded : ℕ → Reply

abbrev pub bad_status : ℕ → Bool
bad_status code = ltb code 200 || leb 400 code

-- The error handling of `RoundTrip`.
unfoldable pub settle : Reply → Proxy → Proxy
unfolding mark_failure mark_success
settle failed p = mark_failure p
settle nothing p = mark_success p
settle (responded code) p = if bad_status code then mark_failure p else mark_success p

abbrev pub settle_at : Manager → Option ℕ → Reply → Manager
settle_at m none reply = m
settle_at m (some i) reply = record m { proxies = modify m.proxies i (settle reply) }

-- `send none` is the direct transport. The result has the transport that was used.
unfoldable pub round_trip : (Option ℕ → Reply) → Manager → Manager × Option ℕ
unfolding next_proxy settle
round_trip send m = let (m', chosen) = next_proxy m in (settle_at m' chosen (send chosen), chosen)

-- `checkProxy`, from what the probe's GET returned.
unfoldable pub check_proxy : Reply → Bool
check_proxy failed = false
check_proxy nothing = false
check_proxy (responded code) = leb 200 code && ltb code 400

-- One goroutine of `probeAll`.
unfoldable pub probe : Reply → Proxy → Proxy
unfolding check_proxy mark_success
probe reply p = if check_proxy reply then mark_success p else record p { status = offline }

-- The goroutines of `probeAll` in the order in which they finish; `answer i` is what proxy `i`'s
-- probe returned.
unfoldable pub probe_all : (ℕ → Reply) → List ℕ → List Proxy → List Proxy
unfolding probe
probe_all answer [] ps = ps
probe_all answer (i ∷ order) ps = probe_all answer order (modify ps i (probe (answer i)))
