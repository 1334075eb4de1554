-- ===== src/Web/Dm/Service.antt =====
-- apps/web/app/api/dm: the requests of all clients, one after the other.
use vortex_reloaded.Base.{String, List, [], ◌∷◌, Option}
use vortex_reloaded.Signal.Value.{Value}
use vortex_reloaded.Web.Dm.{Database, Outcome}
use vortex_reloaded.Web.Dm.Channels.{CreateRequest, create_channel}
use vortex_reloaded.Web.Dm.Members.{AddRequest, RemoveRequest, add_member, remove_member}
use vortex_reloaded.Web.Dm.Messages.{SendRequest, send_message}
use vortex_reloaded.Web.Dm.Edits.{EditRequest, edit_message, delete_message}
use vortex_reloaded.Web.Dm.Reactions.{ReactionRequest, add_reaction, remove_reaction}

pub data Call : Type 0 where
  creates : CreateRequest → Call
  adds : AddRequest → Call
  removes : RemoveRequest → Call
  sends : SendRequest → Call
  edits deletes : EditRequest → Call
  reacts unreacts : ReactionRequest → Call

-- `String.prototype.trim`, the first 64 units of a text, and `JSON.parse`.
module _ (trim prefix : String → String) (json_parse : String → Option Value) where
  unfoldable pub serve : Call → Database → Outcome
  serve (creates q) = create_channel q
  serve (adds q) = add_member q
  serve (removes q) = remove_member q
  serve (sends q) = send_message trim json_parse q
  serve (edits q) = edit_message trim q
  serve (deletes q) = delete_message q
  serve (reacts q) = add_reaction trim prefix q
  serve (unreacts q) = remove_reaction trim prefix q

  unfoldable pub serve_all : List Call → Database → Database
  unfolding serve
  serve_all [] db = db
  serve_all (c ∷ cs) db = serve_all cs (serve c db).database

  -- What every call keeps, all calls keep.
  pub serve_all-keeps {ℓ} :
      (P : Database → Type ℓ)
      → ((c : Call) (db : Database) → P db → P (serve c db).database)
      → (cs : List Call) (db : Database) → P db
      → P (serve_all cs db)
  unfolding serve_all
  serve_all-keeps P h [] db p = p
  serve_all-keeps P h (c ∷ cs) db p = serve_all-keeps P h cs (serve c db).database (h c db p)
