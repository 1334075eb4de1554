-- ===== src/Web/OlmStore/Plaintexts.antt =====
-- apps/web/lib/olm-protocol-store.ts: the texts of a user's own messages, which no later call loses.
use vortex_reloaded.Base.{
  ◌≡◌, refl, sym, ◌∙◌, String, some, Option-cases, Bool, true, false, List, All, inl, inr, str_eq,
  ℕ, not, ◌&&◌, &&-eq-true,
}
use vortex_reloaded.Base.Dict.{lookup, insert, lookup-insert, lookup-insert_self}
use vortex_reloaded.Web.OlmProtocol.{Olm, given}
use vortex_reloaded.Web.OlmStore.{
  has_mark, unwrap_pickle-wrap_pickle, wrap_pickle, Wrapping, Browser, Fresh, save_own_plaintext,
  load_own_plaintext, get_or_create_wrap_key, unwrap_stored,
}
use vortex_reloaded.Web.OlmStore.Calls.{
  Request, identity, top_up, has_session, outbound, encrypt, decrypt, save_text, load_text, reset,
  run,
}
use vortex_reloaded.Web.OlmStore.Rules.{Stable, after-both}
use vortex_reloaded.Web.OlmStore.Owners.{Owned, run-Owned, owned_by, is_of}
use vortex_reloaded.Web.OlmStore.Steady.{save_own_plaintext-Keeps}

-- Whether a request saves a text for this message.
abbrev pub saves : (message : String) → Request → Bool
saves message (save_text other _) = str_eq other message
saves message (identity _) = false
saves message reset = false
saves message (top_up _ _ _) = false
saves message (has_session _) = false
saves message (outbound _ _) = false
saves message (encrypt _ _) = false
saves message (decrypt _ _ _) = false
saves message (load_text _) = false

not-eq-true : {b : Bool} → not b ≡ true → b ≡ false
not-eq-true {b = true} h = cc
not-eq-true {b = false} h = refl

module _ (o : Olm) (w : Wrapping) (user message : String) (text : String) (k : w.Key) (iv : ℕ) where
  abbrev HasText : Browser w → Type 0
  HasText b =
      (b.wrap_key ≡ some k) × (lookup message b.own_plaintext ≡ some (wrap_pickle w k iv text))

  HasText-Stable : Stable w (Owned o w user HasText)
  HasText-Stable = record {
    on_key = λ b k' q h. cc (sym q ∙ h.1.0);
    on_device = λ b id h. h;
    on_account = λ b k iv pickle q h. h;
    on_session = λ b k iv key pickle q h. h;
    on_pin = λ b other q n h. h;
  }

  put-HasText :
      (f : Fresh w) (other other_text : String) (k' : w.Key) (b : Browser w)
      → str_eq other message ≡ false
      → lookup message b.own_plaintext ≡ some (wrap_pickle w k iv text)
      → lookup message (insert other (wrap_pickle w k' f.iv other_text) b.own_plaintext)
        ≡ some (wrap_pickle w k iv text)
  put-HasText f other other_text k' b n h =
      rw (lookup-insert other message (wrap_pickle w k' f.iv other_text) b.own_plaintext, n) h

  run-HasText :
      (requests : List (Fresh w × Request)) (b : Browser w)
      → All (λ r. (is_of user r.1 && not (saves message r.1)) ≡ true) requests
      → Owned o w user HasText b
      → Owned o w user HasText (run o w requests b)
  run-HasText requests b fits =
      run-Owned o w user HasText HasText-Stable (λ b h. h)
        (λ r. (is_of user r && not (saves message r)) ≡ true)
        (λ r e. (&&-eq-true (is_of user r) (not (saves message r)) e).0)
        (λ f m t b fit h. after-both (Owned o w user HasText) (save_own_plaintext w f m t b) (
          save_own_plaintext-Keeps o w (Owned o w user HasText) HasText-Stable f m t
            (λ k' b h'. (h'.0.0, (h'.0.1.0, put-HasText f m t k' b (not-eq-true fit) h'.0.1.1))) b
            h))
        requests fits b

  load-HasText :
      (f : Fresh w) (b : Browser w)
      → has_mark text ≡ false
      → HasText b
      → (load_own_plaintext w f message b).1 ≡ some (some text)
  unfolding load_own_plaintext get_or_create_wrap_key
  load-HasText f b plain h =
      rw (h.0, h.1, unwrap_stored, unwrap_pickle-wrap_pickle w k iv text plain) refl

module _ (o : Olm) (w : Wrapping) (user message : String) where
  saved-HasText :
      (f : Fresh w) (text : String) (b : Browser w)
      → owned_by user (given b.owner_user_id) ≡ true
      → (k : w.Key) × Owned o w user
          (HasText o w user message text k f.iv)
          (save_own_plaintext w f message text b).0
  unfolding save_own_plaintext get_or_create_wrap_key
  saved-HasText f text b h = elim (Option-cases b.wrap_key) [
    | inl q ↦ (f.key, rw q (h, (refl, lookup-insert_self message _ b.own_plaintext)))
    | inr (k, q) ↦ (k, rw q (h, (refl, lookup-insert_self message _ b.own_plaintext)))
  ]

  -- A text that is saved for a message, and does not begin with the byte order mark U+FEFF, is loaded again after any calls of the user whose state it is, if
  -- none of them is a reset or saves another text for the message.
  pub load-run-save :
      (f f' : Fresh w) (text : String) (requests : List (Fresh w × Request)) (b : Browser w)
      → has_mark text ≡ false
      → owned_by user (given b.owner_user_id) ≡ true
      → All (λ r. (is_of user r.1 && not (saves message r.1)) ≡ true) requests
      → (load_own_plaintext w f' message
          (run o w requests (save_own_plaintext w f message text b).0)).1
        ≡ some (some text)
  load-run-save f f' text requests b plain h fits =
      let (k, e) = saved-HasText f text b h in
      load-HasText o w user message text k f.iv f' _ plain
        (run-HasText o w user message text k f.iv requests _ fits e).1
