-- ===== src/ProxyPool/Health.antt =====
-- How requests and probes change what is online.
use mathlib.Core.Option
use tmp_cf_ytb_admin.Base.{
  ◌<◌, length, ℕ, ◌+◌, ◌≡◌, refl, ap, ◌∙◌, ◌≢◌, inl, inr, Bool, true, false, ◌||◌, Option, none,
  some, List, [], ◌∷◌, arith, ◌==◌, if◌then◌else◌, get_elem?, modify, All, get_elem?-modify,
  get_elem?-modify_self, get_elem?-modify_ne, Option-cases,
}
use tmp_cf_ytb_admin.ProxyPool.{
  online, offline, Proxy, Manager, Reply, failed, nothing, responded, bad_status, online_of,
  online_at, next_proxy, settle, round_trip, check_proxy, probe, probe_all,
}
use tmp_cf_ytb_admin.ProxyPool.Rotation.{next_proxy-some, next_proxy-none}

-- Whether `RoundTrip` counts what the transport returned as a failure of the proxy.
abbrev pub is_bad : Reply → Bool
is_bad failed = true
is_bad nothing = false
is_bad (responded code) = bad_status code

-- The proxy after a request through it: offline after a failure, which is counted, and otherwise
-- online with no failures.
pub settle_lem :
    (reply : Reply) (p : Proxy)
    → settle reply p ≡ (
        if is_bad reply
        then record p { status = offline; fail_count = p.fail_count + 1 }
        else record p { status = online; fail_count = 0 })
unfolding settle
settle_lem failed p = ground arith
settle_lem nothing p = refl
settle_lem (responded code) p = ground arith

next_proxy-proxies : (m : Manager) → (next_proxy m).0.proxies ≡ m.proxies
next_proxy-proxies m = unfold next_proxy in ground arith

-- With no online proxy a request goes direct, every proxy is offline and none is changed.
pub round_trip-direct :
    (send : Option ℕ → Reply) (m : Manager)
    → m.current_index < length m.proxies
    → (round_trip send m).1 ≡ none
    → ((round_trip send m).0.proxies ≡ m.proxies)
      × ((i : ℕ) → i < length m.proxies → online_at m.proxies i ≡ false)
unfolding round_trip
round_trip-direct send m hc e = (rw e (next_proxy-proxies m), next_proxy-none m hc e)

-- A request through a proxy was sent to one that was online. It changes that proxy alone, by the
-- verdict on the reply.
pub round_trip-proxies :
    (send : Option ℕ → Reply) (m : Manager) (i : ℕ)
    → (round_trip send m).1 ≡ some i
    → (online_at m.proxies i ≡ true)
      × ((round_trip send m).0.proxies ≡ modify m.proxies i (settle (send (some i))))
unfolding round_trip
round_trip-proxies send m i e = (
  (next_proxy-some m i e).0.4,
  rw e (ap (λ ps. modify ps i (settle (send (some i)))) (next_proxy-proxies m)),
)

round_trip-unchanged :
    (send : Option ℕ → Reply) (m : Manager)
    → (round_trip send m).1 ≡ none
    → (round_trip send m).0.proxies ≡ m.proxies
unfolding round_trip
round_trip-unchanged send m e = rw e (next_proxy-proxies m)

round_trip-offline :
    (send : Option ℕ → Reply) (m : Manager) (i : ℕ)
    → online_at m.proxies i ≡ false
    → ((round_trip send m).1 ≢ some i) × (online_at (round_trip send m).0.proxies i ≡ false)
round_trip-offline send m i h = elim (Option-cases (round_trip send m).1) [
  | inl e ↦ (λ f. cc, rw (round_trip-unchanged send m e) h)
  | inr (j, e) ↦
      let (up, changed) = round_trip-proxies send m j e in
      let j≢i : j ≢ i = λ f. cc (ap (online_at m.proxies) f) in
      (λ f. j≢i (cc), rw changed (ap online_of (get_elem?-modify_ne m.proxies j i _ j≢i) ∙ h))
]

-- Requests made one after another, each with what its transport answers, and the transports used.
unfoldable pub requests : List (Option ℕ → Reply) → Manager → Manager × List (Option ℕ)
requests [] m = (m, [])
requests (send ∷ sends) m =
    let (m', used) = round_trip send m in let (m'', rest) = requests sends m' in (m'', used ∷ rest)

-- A proxy that is offline is used by no later request, however the others fare, and stays
-- offline: only a probe brings it back.
pub requests-offline :
    (sends : List (Option ℕ → Reply)) (m : Manager) (i : ℕ)
    → online_at m.proxies i ≡ false
    → All (λ used. used ≢ some i) (requests sends m).1
      × (online_at (requests sends m).0.proxies i ≡ false)
unfolding requests
requests-offline [] m i h = (tt, h)
requests-offline (send ∷ sends) m i h =
    let (avoided, still) = round_trip-offline send m i h in
    let (rest, end) = requests-offline sends (round_trip send m).0 i still in ((avoided, rest), end)

-- A request that fails takes its proxy offline.
pub round_trip-bad :
    (send : Option ℕ → Reply) (m : Manager) (i : ℕ)
    → (round_trip send m).1 ≡ some i
    → is_bad (send (some i)) ≡ true
    → online_at (round_trip send m).0.proxies i ≡ false
round_trip-bad send m i e bad =
    let (up, changed) = round_trip-proxies send m i e in
    rw changed (off (get_elem? m.proxies i) refl up)
  where
    off :
        (o : Option Proxy)
        → get_elem? m.proxies i ≡ o
        → online_of o ≡ true
        → online_of (get_elem? (modify m.proxies i (settle (send (some i)))) i) ≡ false
    off none f up = cc
    off (some p) f up =
        rw (get_elem?-modify_self m.proxies i (settle (send (some i))) f)
          (rw (settle_lem (send (some i)) p) (rw bad))

-- A probe twice with one answer is a probe.
probe_idem : (reply : Reply) (p : Proxy) → probe reply (probe reply p) ≡ probe reply p
unfolding probe
probe_idem reply p = ground arith

abbrev pub contains : List ℕ → ℕ → Bool
contains [] i = false
contains (j ∷ js) i = j == i || contains js i

-- The probing goroutines may finish in any order: each proxy that was probed ends as its own
-- answer says, and no other proxy is changed.
pub get_elem?-probe_all :
    (answer : ℕ → Reply) (order : List ℕ) (ps : List Proxy) (i : ℕ)
    → get_elem? (probe_all answer order ps) i ≡ (
        if contains order i then Option.map (probe (answer i)) (get_elem? ps i) else get_elem? ps i)
unfolding probe_all
get_elem?-probe_all answer [] ps i = refl
get_elem?-probe_all answer (j ∷ order) ps i = elim (Option-cases (get_elem? ps i)) [
  | inl e ↦ ground (
    arith,
    e,
    get_elem?-probe_all answer order (modify ps j (probe (answer j))) i,
    get_elem?-modify ps j i (probe (answer j)),
  )
  | inr (p, e) ↦ ground (
    arith,
    e,
    probe_idem (answer i) p,
    get_elem?-probe_all answer order (modify ps j (probe (answer j))) i,
    get_elem?-modify ps j i (probe (answer j)),
  )
]

-- What a health probe accepts a request would have counted as a success, and the other way round
-- for every reply that carries a status code.
pub check_proxy-is_bad :
    (code : ℕ)
    → (check_proxy (responded code) ≡ true → is_bad (responded code) ≡ false)
      × (is_bad (responded code) ≡ false → check_proxy (responded code) ≡ true)
unfolding check_proxy
check_proxy-is_bad code = ground arith
