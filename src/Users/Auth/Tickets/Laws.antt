-- ===== src/Users/Auth/Tickets/Laws.antt =====
-- Tickets are used once.
use cli_server_python.Prelude.{
  ℕ, String, ◌≡◌, false, none, arith, eq_refl, is_empty, Bool-cases, Option-cases, inl, inr,
}
use cli_server_python.Prelude.Dict.{get, pop, get-pop}
use cli_server_python.Users.Auth.{Ticket, Auth, Config, context_for_session}
use cli_server_python.Users.Auth.Tickets.{redeem, consume_ticket}

module _ (c : Config) where
  redeem-tickets : (now : ℕ) (t : Ticket) (a : Auth) → (redeem c now t a).1.tickets ≡ a.tickets
  unfolding redeem context_for_session
  redeem-tickets now t a = ground arith

  consume_ticket-missing :
      (now : ℕ) (ticket : String) (a : Auth)
      → get (c.hash_token ticket) a.tickets ≡ none
      → (consume_ticket c now ticket a).0 ≡ none
  unfolding consume_ticket
  consume_ticket-missing now ticket a missing = ground (arith, missing)

  get-consume_ticket :
      (now : ℕ) (ticket : String) (a : Auth)
      → is_empty ticket ≡ false
      → get (c.hash_token ticket) (consume_ticket c now ticket a).1.tickets ≡ none
  unfolding consume_ticket
  get-consume_ticket now ticket a some_text =
      elim (Option-cases (get (c.hash_token ticket) a.tickets)) [
        | inl missing ↦ rw (some_text, missing, consume_ticket) missing
        | inr (t, found) ↦
            let without = record a { tickets = pop (c.hash_token ticket) a.tickets } in
            ground (
              arith,
              found,
              some_text,
              redeem-tickets now t without,
              get-pop (c.hash_token ticket) (c.hash_token ticket) a.tickets,
              eq_refl (c.hash_token ticket),
            )
      ]

  -- A ticket is used at most once: whatever the first use returns, every later use of it returns
  -- nothing.
  pub consume_ticket-again :
      (now later : ℕ) (ticket : String) (a : Auth)
      → (consume_ticket c later ticket (consume_ticket c now ticket a).1).0 ≡ none
  unfolding consume_ticket
  consume_ticket-again now later ticket a = elim (Bool-cases (is_empty ticket)) [
    | inl blank ↦ rw blank
    | inr some_text ↦
        consume_ticket-missing later ticket (consume_ticket c now ticket a).1
          (get-consume_ticket now ticket a some_text)
  ]
