-- ===== src/Catalog/Laws.antt =====
-- What the catalog of crates/gateway-api/src/ops.rs guarantees: names, routes and the capability
-- matrix.
use st0x_alpaca.Prelude.{
  ◌≡◌, refl, sym, ◌⊎◌, ◌↔◌, ◌≢◌, Bool, true, false, List, ◌∷◌, [], Option, some, arith, String,
  str_eq, str_eq_iff, find,
}
use st0x_alpaca.Catalog.Access.{Tier, bot, read, write, Profile, t0, s01, is_human}
use st0x_alpaca.Catalog.Operation.{
  Operation, account_funds, issuer_mint_callback, issuer_redeem, issuer_request,
  corporate_actions_stream, mutates, resendable_with_same_key, all_operations,
}
use st0x_alpaca.Catalog.Name.{name, path, from_name}
use st0x_alpaca.Catalog.Tiers.{allows}

-- What `find` returns passes the test.
find_passes {ℓ} :
    {A : Type ℓ} (p : A → Bool) (xs : List A) {a : A} → find p xs ≡ some a → p a ≡ true
find_passes p [] h = cc
find_passes p (x ∷ xs) {a} h = ground (arith, find_passes p xs {a = a})

from_name-name : (o : Operation) → from_name (name o) ≡ some o
unfolding from_name name
from_name-name account_funds = refl
from_name-name _ = refl

-- A text is read as an operation exactly when it is that operation's catalog name.
pub from_name_iff : (text : String) (o : Operation) → (from_name text ≡ some o) ↔ (text ≡ name o)
unfolding from_name
from_name_iff text o = (
  λ h.
      sym ((str_eq_iff (name o) text).0 (find_passes (λ o. str_eq (name o) text) all_operations h)),
  λ e. rw e (from_name-name o),
)

-- The operation of a path, by its catalog position.
at_path : String → Option Operation
at_path text = find (λ o. str_eq (path o) text) all_operations

at_path-path : (o : Operation) → at_path (path o) ≡ some o
unfolding at_path path
at_path-path account_funds = refl
at_path-path _ = refl

-- No two operations share a path.
pub path_injective : (a b : Operation) → path a ≡ path b → a ≡ b
path_injective a b e = cc (at_path-path a, at_path-path b)

-- The read tier is given no operation that changes state at Alpaca, in either profile.
pub read_never_mutates : (o : Operation) (p : Profile) → allows o p read ≡ true → mutates o ≡ false
unfolding allows mutates
read_never_mutates o p h = ground arith

-- What the read tier may call, the write tier may call too.
pub read_within_write :
    (o : Operation) (p : Profile) → allows o p read ≡ true → allows o p write ≡ true
unfolding allows
read_within_write o p h = ground arith

-- The operations of the issuer.
abbrev pub IsIssuer : Operation → Type 0
IsIssuer o =
    (o ≡ issuer_mint_callback)
    ⊎ (o ≡ issuer_redeem)
    ⊎ (o ≡ issuer_request)
    ⊎ (o ≡ corporate_actions_stream)

-- The bot of the s01 profile is given the issuer operations and no others.
pub s01_bot_iff : (o : Operation) → (allows o s01 bot ≡ true) ↔ IsIssuer o
unfolding allows
s01_bot_iff o = ground arith

-- The t0 profile gives no tier an issuer operation.
pub t0_serves_no_issuer : (o : Operation) (t : Tier) → IsIssuer o → allows o t0 t ≡ false
unfolding allows
t0_serves_no_issuer o t h = ground arith

-- Apart from looking up an issuer request, a human tier has the same operations in both profiles.
pub humans_agree :
    (o : Operation) (t : Tier)
    → is_human t ≡ true
    → o ≢ issuer_request
    → allows o s01 t ≡ allows o t0 t
unfolding allows is_human
humans_agree o t h n = ground arith

-- Only operations that change state are marked as safe to send again under the same key.
pub resendable-mutates : (o : Operation) → resendable_with_same_key o ≡ true → mutates o ≡ true
unfolding resendable_with_same_key mutates
resendable-mutates o h = ground arith
