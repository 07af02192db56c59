-- ===== src/ActionCheckpoint/Actions.antt =====
-- crates/ntd-runtime/src/action_checkpoint.rs: `encode_typed_action` and `decode_typed_action`.
use ntd.Prelude.{ℕ, ◌≤◌, All, err, ◌==◌, if◌then◌else◌, arith}
use ntd.Prelude.Utf8.{IsString}
use ntd.Capability.Action.{
  TypedAction, web_search, web_fetch, artifact_download, artifact_upload, browser_observe,
  browser_interact, file_read, file_write, device_observe, device_interact, app_action, pc_observe,
  pc_execute, pc_artifact_read, pc_artifact_write, custom_action,
}
use ntd.Wire.Cursor.{Decoder, ◌>>=◌, pure, lift, u8, u16, bytes, string, strings, optional_string}
use ntd.Wire.Push.{
  Encoder, ◌⧺◌, done, push_u8, push_u16, push_bytes, push_string, push_strings,
  push_optional_string,
}
use ntd.Wire.Trips.{Trips, ⧺->>=, done-pure}
use ntd.Wire.RoundTrip.{
  Where, push_u8-Trips, push_u16-Trips, push_bytes-Trips, push_string-Trips, push_strings-Trips,
  push_optional_string-Trips,
}
use ntd.ActionCheckpoint.Format.{ActionCheckpointError, invalid_action_tag, checkpoint_errors}

unfoldable pub encode_typed_action : TypedAction → Encoder ActionCheckpointError
unfolding ◌⧺◌ done push_u8 push_u16 push_bytes push_string push_strings push_optional_string
encode_typed_action (web_search query max_results) =
    push_u8 1 ⧺ (push_string query ⧺ (push_u16 max_results ⧺ (done)))
encode_typed_action (web_fetch url) = push_u8 2 ⧺ (push_string url ⧺ (done))
encode_typed_action (browser_observe target) = push_u8 3 ⧺ (push_string target ⧺ (done))
encode_typed_action (browser_interact target operation value) =
    push_u8 4
    ⧺ (push_string target ⧺ (push_string operation ⧺ (push_optional_string value ⧺ (done))))
encode_typed_action (file_read path) = push_u8 5 ⧺ (push_string path ⧺ (done))
encode_typed_action (file_write path payload) =
    push_u8 6 ⧺ (push_string path ⧺ (push_bytes payload ⧺ (done)))
encode_typed_action (device_observe surface) = push_u8 7 ⧺ (push_string surface ⧺ (done))
encode_typed_action (device_interact surface operation argument) =
    push_u8 8
    ⧺ (push_string surface ⧺ (push_string operation ⧺ (push_optional_string argument ⧺ (done))))
encode_typed_action (app_action name action payload) =
    push_u8 9 ⧺ (push_string name ⧺ (push_string action ⧺ (push_bytes payload ⧺ (done))))
encode_typed_action (custom_action type_name payload) =
    push_u8 10 ⧺ (push_string type_name ⧺ (push_bytes payload ⧺ (done)))
encode_typed_action (pc_observe peer surface) =
    push_u8 11 ⧺ (push_string peer ⧺ (push_string surface ⧺ (done)))
encode_typed_action (pc_execute peer program args working_dir) =
    push_u8 12
    ⧺ (push_string peer
        ⧺ (push_string program ⧺ (push_strings args ⧺ (push_optional_string working_dir ⧺ (done)))))
encode_typed_action (pc_artifact_read peer path) =
    push_u8 13 ⧺ (push_string peer ⧺ (push_string path ⧺ (done)))
encode_typed_action (pc_artifact_write peer path payload) =
    push_u8 14 ⧺ (push_string peer ⧺ (push_string path ⧺ (push_bytes payload ⧺ (done))))
encode_typed_action (artifact_download url path) =
    push_u8 15 ⧺ (push_string url ⧺ (push_string path ⧺ (done)))
encode_typed_action (artifact_upload url path) =
    push_u8 16 ⧺ (push_string url ⧺ (push_string path ⧺ (done)))

-- The fields of an action, by its tag.
unfoldable pub decode_tagged_action : ℕ → Decoder ActionCheckpointError TypedAction
unfolding ◌>>=◌ pure lift u16 bytes string strings optional_string
decode_tagged_action tag =
    if tag == 1
    then (do query ← string; max_results ← u16; pure (web_search query max_results))
    else if tag == 2
    then (do url ← string; pure (web_fetch url))
    else if tag == 3
    then (do target ← string; pure (browser_observe target))
    else if tag == 4
    then (do
      target ← string
      operation ← string
      value ← optional_string
      pure (browser_interact target operation value))
    else if tag == 5
    then (do path ← string; pure (file_read path))
    else if tag == 6
    then (do path ← string; payload ← bytes; pure (file_write path payload))
    else if tag == 7
    then (do surface ← string; pure (device_observe surface))
    else if tag == 8
    then (do
      surface ← string
      operation ← string
      argument ← optional_string
      pure (device_interact surface operation argument))
    else if tag == 9
    then (do name ← string; action ← string; payload ← bytes; pure (app_action name action payload))
    else if tag == 10
    then (do type_name ← string; payload ← bytes; pure (custom_action type_name payload))
    else if tag == 11
    then (do peer ← string; surface ← string; pure (pc_observe peer surface))
    else if tag == 12
    then (do
      peer ← string
      program ← string
      args ← strings
      working_dir ← optional_string
      pure (pc_execute peer program args working_dir))
    else if tag == 13
    then (do peer ← string; path ← string; pure (pc_artifact_read peer path))
    else if tag == 14
    then (do
      peer ← string
      path ← string
      payload ← bytes
      pure (pc_artifact_write peer path payload))
    else if tag == 15
    then (do url ← string; path ← string; pure (artifact_download url path))
    else if tag == 16
    then (do url ← string; path ← string; pure (artifact_upload url path))
    else lift (err (invalid_action_tag tag))

unfoldable pub decode_typed_action : Decoder ActionCheckpointError TypedAction
unfolding ◌>>=◌ u8 decode_tagged_action
decode_typed_action = do tag ← u8; decode_tagged_action tag

-- What Rust's types guarantee of an action's fields.
abbrev pub FitsAction : TypedAction → Type 0
FitsAction (web_search query max_results) = IsString query × (max_results ≤ 65535)
FitsAction (web_fetch url) = IsString url
FitsAction (browser_observe target) = IsString target
FitsAction (browser_interact target operation value) =
    IsString target × IsString operation × Where IsString value
FitsAction (file_read path) = IsString path
FitsAction (file_write path _) = IsString path
FitsAction (device_observe surface) = IsString surface
FitsAction (device_interact surface operation argument) =
    IsString surface × IsString operation × Where IsString argument
FitsAction (app_action name action _) = IsString name × IsString action
FitsAction (custom_action type_name _) = IsString type_name
FitsAction (pc_observe peer surface) = IsString peer × IsString surface
FitsAction (pc_execute peer program args working_dir) =
    IsString peer × IsString program × All IsString args × Where IsString working_dir
FitsAction (pc_artifact_read peer path) = IsString peer × IsString path
FitsAction (pc_artifact_write peer path _) = IsString peer × IsString path
FitsAction (artifact_download url path) = IsString url × IsString path
FitsAction (artifact_upload url path) = IsString url × IsString path

-- A typed action is read back.
pub decode-encode_typed_action :
    (a : TypedAction) → FitsAction a → Trips (encode_typed_action a) decode_typed_action a
unfolding encode_typed_action decode_typed_action decode_tagged_action
decode-encode_typed_action (web_search query max_results) h =
    ⧺->>= _ (push_u8-Trips {v = 1} (omega arith))
      (⧺->>= _ (push_string-Trips h.0) (⧺->>= _ (push_u16-Trips h.1) done-pure))
decode-encode_typed_action (web_fetch url) h =
    ⧺->>= _ (push_u8-Trips {v = 2} (omega arith)) (⧺->>= _ (push_string-Trips h) done-pure)
decode-encode_typed_action (browser_observe target) h =
    ⧺->>= _ (push_u8-Trips {v = 3} (omega arith)) (⧺->>= _ (push_string-Trips h) done-pure)
decode-encode_typed_action (browser_interact target operation value) h =
    ⧺->>= _ (push_u8-Trips {v = 4} (omega arith)) (
      ⧺->>= _ (push_string-Trips h.0) (
        ⧺->>= _ (push_string-Trips h.1) (⧺->>= _ (push_optional_string-Trips value h.2) done-pure)))
decode-encode_typed_action (file_read path) h =
    ⧺->>= _ (push_u8-Trips {v = 5} (omega arith)) (⧺->>= _ (push_string-Trips h) done-pure)
decode-encode_typed_action (file_write path payload) h =
    ⧺->>= _ (push_u8-Trips {v = 6} (omega arith))
      (⧺->>= _ (push_string-Trips h) (⧺->>= _ (push_bytes-Trips payload) done-pure))
decode-encode_typed_action (device_observe surface) h =
    ⧺->>= _ (push_u8-Trips {v = 7} (omega arith)) (⧺->>= _ (push_string-Trips h) done-pure)
decode-encode_typed_action (device_interact surface operation argument) h =
    ⧺->>= _ (push_u8-Trips {v = 8} (omega arith)) (
      ⧺->>= _ (push_string-Trips h.0) (
        ⧺->>= _ (push_string-Trips h.1)
          (⧺->>= _ (push_optional_string-Trips argument h.2) done-pure)))
decode-encode_typed_action (app_action name action payload) h =
    ⧺->>= _ (push_u8-Trips {v = 9} (omega arith)) (
      ⧺->>= _ (push_string-Trips h.0)
        (⧺->>= _ (push_string-Trips h.1) (⧺->>= _ (push_bytes-Trips payload) done-pure)))
decode-encode_typed_action (custom_action type_name payload) h =
    ⧺->>= _ (push_u8-Trips {v = 10} (omega arith))
      (⧺->>= _ (push_string-Trips h) (⧺->>= _ (push_bytes-Trips payload) done-pure))
decode-encode_typed_action (pc_observe peer surface) h =
    ⧺->>= _ (push_u8-Trips {v = 11} (omega arith))
      (⧺->>= _ (push_string-Trips h.0) (⧺->>= _ (push_string-Trips h.1) done-pure))
decode-encode_typed_action (pc_execute peer program args working_dir) h =
    ⧺->>= _ (push_u8-Trips {v = 12} (omega arith)) (
      ⧺->>= _ (push_string-Trips h.0) (
        ⧺->>= _ (push_string-Trips h.1) (
          ⧺->>= _ (push_strings-Trips h.2)
            (⧺->>= _ (push_optional_string-Trips working_dir h.3) done-pure))))
decode-encode_typed_action (pc_artifact_read peer path) h =
    ⧺->>= _ (push_u8-Trips {v = 13} (omega arith))
      (⧺->>= _ (push_string-Trips h.0) (⧺->>= _ (push_string-Trips h.1) done-pure))
decode-encode_typed_action (pc_artifact_write peer path payload) h =
    ⧺->>= _ (push_u8-Trips {v = 14} (omega arith)) (
      ⧺->>= _ (push_string-Trips h.0)
        (⧺->>= _ (push_string-Trips h.1) (⧺->>= _ (push_bytes-Trips payload) done-pure)))
decode-encode_typed_action (artifact_download url path) h =
    ⧺->>= _ (push_u8-Trips {v = 15} (omega arith))
      (⧺->>= _ (push_string-Trips h.0) (⧺->>= _ (push_string-Trips h.1) done-pure))
decode-encode_typed_action (artifact_upload url path) h =
    ⧺->>= _ (push_u8-Trips {v = 16} (omega arith))
      (⧺->>= _ (push_string-Trips h.0) (⧺->>= _ (push_string-Trips h.1) done-pure))
