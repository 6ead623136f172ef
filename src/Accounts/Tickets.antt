-- ===== src/Accounts/Tickets.antt =====
-- The tokens of crates/qdrust-server/src/store.rs that are sent by mail: those that reset a password
-- and those that verify an address. A token is good once, and until it expires.
pub mod Resets
use qdrust.Base.{
  ℕ, ◌+◌, ◌==◌, ltb, Text, text_eq, Bool, true, not, ◌&&◌, keep_if, Option, none, some, List, [],
  ◌∷◌, ◌++◌, Result, ok, err, if◌then◌else◌,
}
use Prim.Native.Nat.{max}
use qdrust.Accounts.{
  Ticket, Accounts, StoreError, expiry_overflow, i64_max, first_where, has_id, update_users,
  change_password,
}

module _ (token_hash : Text → Text) where
  new_ticket : ℕ → ℕ → Text → ℕ → Ticket
  new_ticket id ttl token now = record {
    token_hash = token_hash token;
    user_id = id;
    expires_at = now + max 60 ttl;
  }

  redeems : Text → ℕ → Ticket → Bool
  redeems token now t = text_eq t.token_hash (token_hash token) && ltb now t.expires_at

  without_ticket : Text → List Ticket → List Ticket
  without_ticket token = keep_if (λ t. not (text_eq t.token_hash (token_hash token)))

  unfoldable pub create_password_reset_token : ℕ → ℕ → Text → ℕ → Accounts → Accounts
  unfolding new_ticket
  create_password_reset_token id ttl token now a = record a {
    resets = a.resets ++ new_ticket id ttl token now ∷ [];
  }

  -- The token is used up where the change of the password is no error, whether a row was changed
  -- or not.
  used_up : Result StoreError Bool × Accounts → ℕ → Text → Result StoreError (Option ℕ) × Accounts
  unfolding without_ticket
  used_up (err e, b) id token = (err e, b)
  used_up (ok c, b) id token = (ok (some id), record b { resets = without_ticket token b.resets })

  reset_with : Option Ticket → Text → Text → Accounts → Result StoreError (Option ℕ) × Accounts
  unfolding used_up change_password
  reset_with none token hash a = (ok none, a)
  reset_with (some t) token hash a = used_up (change_password t.user_id hash a) t.user_id token

  unfoldable pub consume_password_reset_token :
      Text → Text → ℕ → Accounts → Result StoreError (Option ℕ) × Accounts
  unfolding reset_with first_where redeems
  consume_password_reset_token token hash now a =
      reset_with (first_where (redeems token now) a.resets) token hash a

  unfoldable pub create_email_verification_token :
      ℕ → ℕ → Text → ℕ → Accounts → Result StoreError (Unit {0}) × Accounts
  unfolding new_ticket
  create_email_verification_token id ttl token now a =
      if ltb i64_max (now + max 60 ttl) then (err expiry_overflow, a) else (
        ok tt,
        record a {
          verifications =
              keep_if (λ t. not (t.user_id == id)) a.verifications
              ++ new_ticket id ttl token now ∷ [];
        },
      )

  verify_with : Option Ticket → Text → Accounts → Option ℕ × Accounts
  unfolding update_users has_id without_ticket
  verify_with none token a = (none, a)
  verify_with (some t) token a = (
    some t.user_id,
    record a {
      users = update_users (has_id t.user_id) (λ u. record u { email_verified = true }) a.users;
      verifications = without_ticket token a.verifications;
    },
  )

  unfoldable pub consume_email_verification_token : Text → ℕ → Accounts → Option ℕ × Accounts
  unfolding verify_with first_where redeems
  consume_email_verification_token token now a =
      verify_with (first_where (redeems token now) a.verifications) token a

unfoldable pub purge_expired_reset_tokens : ℕ → Accounts → Accounts
purge_expired_reset_tokens now a = record a {
  resets = keep_if (λ t. ltb now t.expires_at) a.resets;
}

unfoldable pub purge_expired_email_tokens : ℕ → Accounts → Accounts
purge_expired_email_tokens now a = record a {
  verifications = keep_if (λ t. ltb now t.expires_at) a.verifications;
}
