-- ===== src/Tests/Sessions.antt =====
-- The session checks and the endpoints with Redis and one kind of token.
use vortex_reloaded.Base.{
  ℕ, ◌*◌, ◌<◌, String, ◌≡◌, refl, sym, ap, ◌∙◌, Bool, true, false, List, [], ◌∷◌, Option, none,
  some, inl, inr, arith, ltb, ltb→lt, if◌then◌else◌, str_eq, eq_refl, Bool-cases, some_injective,
}
use vortex_reloaded.Base.Dict.{lookup, insert, delete}
use vortex_reloaded.Signal.Value.{Value, str, get, obj, property, no_property}
use vortex_reloaded.Signal.Revocation.{revoke, is_revoked}
use vortex_reloaded.Signal.Sessions.{
  Payload, Jwt, thrown_out, validate_begin, validate_finish, forget,
}
use vortex_reloaded.Signal.Sessions.Cutoff.{KeptKeys}
use vortex_reloaded.Signal.Sessions.Run.{Op, begins, finishes, run, step, begun, finished}
use vortex_reloaded.Signal.Sessions.Fine.{started}
use vortex_reloaded.Signal.Endpoints.{HttpRequest, admit_request, revoke_sessions}
use vortex_reloaded.Signal.Endpoints.Laws.{revoke_sessions-refuses}
use vortex_reloaded.Tests.Limits.{Keys, redis, with_redis, read_key}

abbrev payload : Payload
payload = record { sub = some "ann"; iat = some 90; exp = some 990 }

verified_payload :
    (now : ℕ) (p : Payload)
    → (if ltb now 990000 then some payload else none) ≡ some p
    → (payload ≡ p) × (now < 990000)
verified_payload now p e = elim (Bool-cases (ltb now 990000)) [
  | inl f ↦ (some_injective (rw f at e), ltb→lt now 990000 f)
  | inr f ↦ cc (rw f at e)
]

alive_payload :
    (now e : ℕ) (p : Payload)
    → (if ltb now 990000 then some payload else none) ≡ some p
    → p.exp ≡ some e
    → now < e * 1000
alive_payload now e p h q =
    let (same, l) = verified_payload now p h in
    let at : 990 ≡ e = some_injective (ap (λ x. x.exp) same ∙ q) in omega arith

abbrev jwt : Jwt
jwt = record {
  payload_of = λ token. payload;
  jwt_verify = λ now token. if ltb now 990000 then some payload else none;
  verified = λ now token p e. sym (verified_payload now p e).0;
  alive = λ now e token p h q. alive_payload now e p h q;
}

kept_set :
    (k : String) (entry : ℕ × ℕ) (r r' : Keys)
    → some (λ j. if str_eq k j then some entry else r j) ≡ some r'
    → (j : String) → r' j ≡ (if str_eq k j then some entry else r j)
kept_set k entry r r' e j = ap (λ (f : Keys). f j) (sym (some_injective e))

kept_read :
    (now v until : ℕ) (entry : Option (ℕ × ℕ))
    → entry ≡ some (v, until)
    → now < until
    → read_key now entry ≡ some (some v)
kept_read now v until entry h l = rw h (ground arith)

abbrev kept : KeptKeys redis
kept = record {
  Stored = λ k v until r. r k ≡ some (v, until);
  set_stores = λ now k v ttl r r' e. rw (kept_set k _ r r' e k, eq_refl k) refl;
  set_keeps =
      λ now k other v ttl w until r r' e differs h. rw (kept_set k _ r r' e other, differs) h;
  get_stored = λ now k v until r h l. inl (kept_read now v until (r k) h l);
}

abbrev token_of : String → Option String
token_of socket = some "tok"

abbrev before : List (ℕ × Op)
before = (95000, begins "s1") ∷ (95100, finishes 0) ∷ (99000, begins "s2") ∷ []

abbrev request : HttpRequest
request = record { authorization = some "Bearer key"; chunks = []; stream_fails = false }

abbrev body : Value
body = obj (property "userId" (str "ann") no_property)

-- After the revocation the check that was waiting goes on, and so does a new one.
revoke_sessions-refuses_example : ◌≡◌ {A = Bool} thrown_out.is_valid false
unfolding run step begun finished validate_begin validate_finish forget revoke_sessions
    admit_request revoke is_revoked lookup insert delete get
revoke_sessions-refuses_example =
    revoke_sessions-refuses redis jwt true token_of kept (λ text. some body) "key" "s1" "tok"
      (record { user_id = "ann"; iat = 90 }) 990 100000 101000 1 before
      ((100500, finishes 0) ∷ (100600, begins "s1") ∷ []) (finishes 0) with_redis
      (some (("s1", some "ann") ∷ [])) request body
      (run redis jwt true token_of before (started redis with_redis)) thrown_out
      (inl ((λ k. none), refl)) refl refl (refl, refl, omega arith) (omega arith)
      (omega arith, (omega arith, omega arith)) refl refl refl refl refl
