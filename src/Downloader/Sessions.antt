-- ===== src/Downloader/Sessions.antt =====
-- backend/worker_downloader/downloader.go, `proxySessionManager`: the requests of a worker go
-- through one session of the proxy until it is worn out, and then through a new one. Sessions are
-- numbered in the order in which they are made; their random names, and the URL made of them, have
-- no part in it. `too_often` is the comparison of the rate of refusals, in floating point.
pub mod Wear
use tmp_cf_ytb_admin.Base.{
  ℕ, zero, suc, ◌+◌, ◌-◌, ◌≤◌, ◌<◌, ◌≡◌, refl, sym, ap, ◌∙◌, subst, Bool, true, false, not, ◌&&◌,
  List, [], ◌∷◌, arith, ltb, leb, ◌==◌, if◌then◌else◌, ℤ, pos, negsuc, ltb_ℤ, ◌≤ℤ◌, ◌⊎◌, inl, inr,
  Bool-cases, if_true, if_false, Option, none, some,
}

pub record Limits : Type 0 where
  -- 0 where there is no limit on the age or on the requests.
  pub max_age : ℕ
  pub max_requests : ℕ
  -- Negative where there is no limit on the refusals.
  pub max_403 : ℤ
  pub min_req_for_rate : ℕ
  pub has_max_403_rate : Bool

pub record Session : Type 0 where
  pub session : ℕ
  pub session_born : ℕ
  pub req_count : ℕ
  pub forbid_count : ℕ

-- The status of a response is `none` where there is no response.
abbrev pub is_forbidden : Option ℕ → Bool
is_forbidden none = false
is_forbidden (some code) = code == 403

module _ (limits : Limits) (too_often : ℕ → ℕ → Bool) where
  unfoldable pub rotate : ℕ → Session → Session
  rotate now m = record m {
    session = m.session + 1;
    session_born = now;
    req_count = 0;
    forbid_count = 0;
  }

  abbrev pub is_old : ℕ → Session → Bool
  is_old now m = ltb 0 limits.max_age && leb limits.max_age (now - m.session_born)

  abbrev pub is_used_up : Session → Bool
  is_used_up m = ltb 0 limits.max_requests && leb limits.max_requests m.req_count

  abbrev pub is_refused : Session → Bool
  is_refused m =
      not (ltb_ℤ limits.max_403 (pos 0))
      && not (ltb_ℤ (pos m.forbid_count) limits.max_403)
      && ltb 0 m.req_count

  abbrev pub is_refused_often : Session → Bool
  is_refused_often m =
      limits.has_max_403_rate
      && leb limits.min_req_for_rate m.req_count
      && too_often m.forbid_count m.req_count

  unfoldable pub maybe_rotate : ℕ → Session → Session
  unfolding rotate
  maybe_rotate now m =
      if is_old now m
      then rotate now m
      else if is_used_up m
      then rotate now m
      else if is_refused m
      then rotate now m
      else if is_refused_often m
      then rotate now m
      else m

  unfoldable pub before_request : ℕ → Session → Session
  unfolding maybe_rotate
  before_request now m = maybe_rotate now m

  abbrev pub counted : Option ℕ → Session → Session
  counted status m = record m {
    req_count = m.req_count + 1;
    forbid_count = if is_forbidden status then m.forbid_count + 1 else m.forbid_count;
  }

  unfoldable pub after_response : ℕ → Option ℕ → Session → Session
  unfolding maybe_rotate
  after_response now status m = maybe_rotate now (counted status m)
