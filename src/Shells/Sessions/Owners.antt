-- ===== src/Shells/Sessions/Owners.antt =====
-- What the writes to a session and to the table leave: whose shells there are.
use cli_server_python.Prelude.{
  ℕ, ◌≤◌, String, ◌≡◌, inl, inr, refl, ap, ◌∙◌, Bool, Option, none, some, [], ◌∷◌, arith,
  Option-cases,
}
use cli_server_python.Prelude.Dict.{Dict, get, pop}
use cli_server_python.Prelude.Dict.Counting.{count, weight, count-put-old}
use cli_server_python.Shells.Access.{
  ShellOptions, Activity, active, inactive, failed, ended, Provider,
}
use cli_server_python.Shells.Sessions.{
  Closing, ShellSession, timed_out, request_close, watch_limits, touched, act_on, check_session,
  update_session, close_all, client_closed,
}

-- The same shell, as far as its limits go.
pub record IsSameOwner (s t : ShellSession) : Type 0 where
  pub key : s.key ≡ t.key
  pub principal : s.principal ≡ t.principal
  pub address : s.address ≡ t.address

abbrev pub Keeps : (ShellSession → ShellSession) → Type 0
Keeps f = (s : ShellSession) → IsSameOwner (f s) s

-- A test that depends on the owner only.
abbrev pub IsOfOwner : (ShellSession → Bool) → Type 0
IsOfOwner p = (s t : ShellSession) → IsSameOwner s t → p s ≡ p t

pub same_owner : (s : ShellSession) → IsSameOwner s s
same_owner s = record { key = refl; principal = refl; address = refl }

pub request_close-Keeps : (c : Closing) → Keeps (request_close c)
unfolding request_close
request_close-Keeps c s = record {
  key = ground arith;
  principal = ground arith;
  address = ground arith;
}

pub client_closed-Keeps : Keeps client_closed
unfolding client_closed
client_closed-Keeps s = record {
  key = ground arith;
  principal = ground arith;
  address = ground arith;
}

pub watch_limits-Keeps : (opts : ShellOptions) (now : ℕ) → Keeps (watch_limits opts now)
unfolding watch_limits
watch_limits-Keeps opts now s =
    let r = request_close-Keeps timed_out s in
    record {
      key = ground (arith, r.key);
      principal = ground (arith, r.principal);
      address = ground (arith, r.address);
    }

act_on-Keeps : (a : Activity) (now : ℕ) → Keeps (act_on a now)
unfolding act_on touched
act_on-Keeps active now s = record {
  key = ground arith;
  principal = ground arith;
  address = ground arith;
}
act_on-Keeps inactive now s = request_close-Keeps _ s
act_on-Keeps failed now s = request_close-Keeps _ s
act_on-Keeps (ended reason) now s = request_close-Keeps _ s

pub check_session-Keeps :
    (provider : Option Provider) (now : ℕ) → Keeps (check_session provider now)
check_session-Keeps none now s = same_owner s
check_session-Keeps (some pr) now s = elim (Option-cases s.principal) [
  | inl e ↦ record {
    key = rw (e, check_session) refl;
    principal = rw (e, check_session) e;
    address = rw (e, check_session) refl;
  }
  | inr (p, e) ↦
      let k = act_on-Keeps (pr.is_active p) now s in
      record {
        key = rw (e, check_session) k.key;
        principal = rw (e, check_session) (k.principal ∙ e);
        address = rw (e, check_session) k.address;
      }
]

pub count-update_session :
    (p : ShellSession → Bool) (id : String) (f : ShellSession → ShellSession)
    (d : Dict ShellSession)
    → IsOfOwner p
    → Keeps f
    → count p (update_session id f d) ≡ count p d
unfolding update_session
count-update_session p id f d respects keeps = elim (Option-cases (get id d)) [
  | inl e ↦ rw (e, update_session) refl
  | inr (s, e) ↦
      rw (e, update_session)
        (omega (arith, count-put-old p id (f s) s d e, ap weight (respects (f s) s (keeps s))))
]

pub count-pop-le :
    (p : ShellSession → Bool) (id : String) (d : Dict ShellSession) → count p (pop id d) ≤ count p d
unfolding pop
count-pop-le p id [] = omega arith
count-pop-le p id ((k, s) ∷ d) = ground (arith, count-pop-le p id d)

pub count-close_all :
    (p : ShellSession → Bool) (reason : String) (d : Dict ShellSession)
    → IsOfOwner p
    → count p (close_all reason d) ≡ count p d
count-close_all p reason [] respects = refl
count-close_all p reason ((k, s) ∷ d) respects =
    let c : Closing = record { code = 1001; reason = reason; end_reason = "server shutdown" } in
    ground (
      arith,
      respects (request_close c s) s (request_close-Keeps c s),
      count-close_all p reason d respects,
    )
