-- ===== src/Web/OlmStore/Pins.antt =====
-- apps/web/lib/olm-protocol-store.ts: the pinned identities, over any sequence of calls of one user.
use vortex_reloaded.Base.{arith, ◌≡◌, String, none, some, true, List, All, eq_iff}
use vortex_reloaded.Base.Dict.{lookup, insert, lookup-insert}
use vortex_reloaded.Web.OlmProtocol.{Olm, PinnedIdentity, given}
use vortex_reloaded.Web.OlmStore.{Wrapping, Browser, Fresh, save_own_plaintext}
use vortex_reloaded.Web.OlmStore.Calls.{Request, run}
use vortex_reloaded.Web.OlmStore.Rules.{Stable, after-both}
use vortex_reloaded.Web.OlmStore.Owners.{Owned, run-Owned, owned_by, is_of}
use vortex_reloaded.Web.OlmStore.Steady.{save_own_plaintext-Keeps}

module _ (o : Olm) (w : Wrapping) (user : String) (key : String) (p : PinnedIdentity) where
  abbrev HasPin : Browser w → Type 0
  HasPin b = lookup key b.pinned ≡ some p

  insert-pinned :
      (b : Browser w) (other : String) (q : PinnedIdentity)
      → lookup other b.pinned ≡ none
      → lookup key b.pinned ≡ some p
      → lookup key (insert other q b.pinned) ≡ some p
  insert-pinned b other q n h = ground (arith, lookup-insert other key q b.pinned, eq_iff other key)

  HasPin-Stable : Stable w (Owned o w user HasPin)
  HasPin-Stable = record {
    on_key = λ b k q h. h;
    on_device = λ b id h. h;
    on_account = λ b k iv pickle q h. h;
    on_session = λ b k iv key pickle q h. h;
    on_pin = λ b other q n h. (h.0, insert-pinned b other q n h.1);
  }

  -- A pin stays what it is, over any calls of the user whose state it is, bundles and hints of all kinds
  -- included, except a reset.
  pub run-pinned :
      (requests : List (Fresh w × Request)) (b : Browser w)
      → All (λ r. is_of user r.1 ≡ true) requests
      → owned_by user (given b.owner_user_id) ≡ true
      → lookup key b.pinned ≡ some p
      → lookup key (run o w requests b).pinned ≡ some p
  run-pinned requests b own h q =
      (run-Owned o w user HasPin HasPin-Stable (λ b h. h) (λ r. is_of user r ≡ true) (λ _ e. e)
        (λ f m t b _ h. after-both (Owned o w user HasPin) (save_own_plaintext w f m t b) (
          save_own_plaintext-Keeps o w (Owned o w user HasPin) HasPin-Stable f m t (λ k b h. h.0) b
            h))
        requests own b (h, q)).1
