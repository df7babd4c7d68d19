-- ===== src/Users/Auth/Revoking/Laws.antt =====
-- What logging out and revoking leave.
use mathlib.Core.Path.{subst}
use cli_server_python.Prelude.{
  ℕ, String, ◌≡◌, ◌≢◌, false, Option, none, some, [], ◌∷◌, arith, str_eq, eq_iff, eq_refl,
  Bool-cases, inl, inr,
}
use cli_server_python.Prelude.Action.{err}
use cli_server_python.Prelude.Dict.{Dict, get, get-pop}
use cli_server_python.Users.Stores.{Session, delete_session}
use cli_server_python.Users.Auth.{
  invalid_token, Ticket, Auth, Config, is_bound_to, drop_tickets, authenticate_session,
}
use cli_server_python.Users.Auth.Revoking.{logout}

-- No ticket of the table is bound to the session.
pub record HasNoTicket (session_id : String) (d : Dict Ticket) : Type 0 where
  pub unbound : (k : String) (t : Ticket) → get k d ≡ some t → t.session_id ≢ some session_id

is_bound_to-some :
    (session_id : String) (o : Option String)
    → is_bound_to session_id o ≡ false
    → o ≢ some session_id
is_bound_to-some session_id none h e = cc
is_bound_to-some session_id (some s) h e = ground (arith, eq_iff s session_id)

-- What is left is not bound.
is_bound_to-drop_tickets :
    (session_id k : String) (t : Ticket) (d : Dict Ticket)
    → get k (drop_tickets session_id d) ≡ some t
    → is_bound_to session_id t.session_id ≡ false
unfolding drop_tickets get
is_bound_to-drop_tickets session_id k t [] e = absurd (ground arith)
is_bound_to-drop_tickets session_id k t ((j, u) ∷ d) e =
    elim (Bool-cases (is_bound_to session_id u.session_id)) [
      | inl bound ↦ is_bound_to-drop_tickets session_id k t d (rw bound at e)
      | inr free ↦ elim (Bool-cases (str_eq j k)) [
        | inl here ↦
            let h : u ≡ t = (let f = rw (free, get, here) at e in cc) in
            subst (λ x. is_bound_to session_id x.session_id ≡ false) h free
        | inr later ↦ is_bound_to-drop_tickets session_id k t d (rw (free, get, later) at e)
      ]
    ]

HasNoTicket-drop_tickets :
    (session_id : String) (d : Dict Ticket) → HasNoTicket session_id (drop_tickets session_id d)
HasNoTicket-drop_tickets session_id d = record {
  unbound = λ k t e.
      is_bound_to-some session_id t.session_id (is_bound_to-drop_tickets session_id k t d e);
}

-- After a logout the token is refused, and no ticket is left that is bound to its session.
pub authenticate_session-logout :
    (c : Config) (now : ℕ) (token : String) (a : Auth) (s : Session)
    → get (c.hash_token token) a.sessions ≡ some s
    → ((authenticate_session c now token (logout c token a)).0 ≡ err invalid_token)
      × HasNoTicket s.id (logout c token a).tickets
unfolding authenticate_session logout delete_session
authenticate_session-logout c now token a s found = (
  ground (
    arith,
    found,
    get-pop (c.hash_token token) (c.hash_token token) a.sessions,
    eq_refl (c.hash_token token),
  ),
  rw (found, logout) (HasNoTicket-drop_tickets s.id a.tickets),
)
