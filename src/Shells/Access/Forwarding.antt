-- ===== src/Shells/Access/Forwarding.antt =====
-- Whose address is believed behind proxies.
use Prim.Native.Char.{code}
use Prim.Native.String
use mathlib.Core.List.{append_assoc, map-append}
use text.Mathlib.TextLemmas.{nil-append, cons-append}
use cli_server_python.Prelude.{
  ℕ, suc, ◌-◌, ◌≤◌, ◌==◌, String, ◌≡◌, refl, sym, ap, ◌∙◌, List, [], ◌∷◌, ◌++◌, map, arith, length,
  length-append, drop, strip, split_on, split_on-cons, Bool-cases, inl, inr,
}
use cli_server_python.Shells.Access.{
  TrustProxy, trusted_hops, forwarded_entries, forwarded_client_ip,
}

forwarded_entries-append :
    (xs ys : List String)
    → forwarded_entries (xs ++ ys) ≡ forwarded_entries xs ++ forwarded_entries ys
unfolding forwarded_entries
forwarded_entries-append [] ys = refl
forwarded_entries-append (x ∷ xs) ys =
    rw (forwarded_entries-append xs ys) (
      sym
        (append_assoc (map strip (split_on b',' x)) (forwarded_entries xs) (forwarded_entries ys)))

drop-append :
    {A : Type 0} (n : ℕ) (xs ys : List A)
    → n ≤ length ys
    → drop (length (xs ++ ys) - n) (xs ++ ys) ≡ drop (length ys - n) ys
drop-append n [] ys h = refl
drop-append n (x ∷ xs) ys h =
    let e : length (x ∷ (xs ++ ys)) - n ≡ suc (length (xs ++ ys) - n) =
      omega (arith, h, length-append xs ys) in
    ap (λ k. drop k (x ∷ (xs ++ ys))) e ∙ drop-append n xs ys h

forwarded_client_ip-append :
    (client trusted : List String) (trust_proxy : TrustProxy)
    → trusted_hops trust_proxy ≤ length (forwarded_entries trusted)
    → forwarded_client_ip (client ++ trusted) trust_proxy ≡ forwarded_client_ip trusted trust_proxy
unfolding forwarded_client_ip
forwarded_client_ip-append client trusted trust_proxy h =
    rw
      (
        forwarded_client_ip,
        forwarded_entries-append,
        drop-append (trusted_hops trust_proxy) (forwarded_entries client)
            (forwarded_entries trusted) h,
      )
      refl

-- An entry that is put in front of a value, with its comma.
abbrev pub in_front : String → String → String
in_front text value = String.◌++◌ text (String.◌++◌ "," value)

split_on-in_front :
    (text value : String)
    → split_on b',' (in_front text value) ≡ split_on b',' text ++ split_on b',' value
unfolding split_on
split_on-in_front String.[] value = rw (nil-append, cons-append, nil-append) refl
split_on-in_front (String.◌∷◌ c w) value = rw cons-append (elim (Bool-cases (code c == b',')) [
  | inl comma ↦ rw comma (ap (λ r. "" ∷ r) (split_on-in_front w value))
  | inr other ↦
      let (u, us, before, after) = split_on-cons b',' c w other in
      rw (split_on-in_front w value, before, other) refl
])

forwarded_entries-in_front :
    (text value : String) (rest : List String)
    → forwarded_entries (in_front text value ∷ rest)
      ≡ map strip (split_on b',' text) ++ forwarded_entries (value ∷ rest)
unfolding forwarded_entries
forwarded_entries-in_front text value rest =
    rw (split_on-in_front text value, map-append)
      (append_assoc (map strip (split_on b',' text)) (map strip (split_on b',' value))
        (forwarded_entries rest))

-- The address of a client does not depend on what the client puts in front of the entries of the
-- trusted proxies, whole values of the header or a text with a comma in front of their own value,
-- where these have added at least as many entries as there are hops.
pub forwarded_client_ip_unspoofed :
    (client rest : List String) (text value : String) (trust_proxy : TrustProxy)
    → trusted_hops trust_proxy ≤ length (forwarded_entries (value ∷ rest))
    → (forwarded_client_ip (client ++ value ∷ rest) trust_proxy
        ≡ forwarded_client_ip (value ∷ rest) trust_proxy)
      × (forwarded_client_ip (client ++ in_front text value ∷ rest) trust_proxy
          ≡ forwarded_client_ip (value ∷ rest) trust_proxy)
unfolding forwarded_client_ip
forwarded_client_ip_unspoofed client rest text value trust_proxy h = (
  forwarded_client_ip-append client (value ∷ rest) trust_proxy h,
  rw
      (
        forwarded_client_ip,
        forwarded_entries-append,
        forwarded_entries-in_front,
        ← append_assoc,
        drop-append (trusted_hops trust_proxy)
            (forwarded_entries client ++ map strip (split_on b',' text))
            (forwarded_entries (value ∷ rest)) h,
      )
      refl,
)
