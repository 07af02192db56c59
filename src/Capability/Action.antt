-- ===== src/Capability/Action.antt =====
-- crates/ntd-runtime/src/capability.rs: typed actions, their domain and validation, and the values
-- that an adapter returns.
use ntd.Prelude.{ℕ, Text, List, [], Option, none, some, Result, ok, ◌>>◌, refuse, ◌==◌, is_blank}
use ntd.Prelude.BTreeMap.{BTreeMap}
use ntd.Capability.Descriptor.{
  CapabilityDomain, web, browser, file, device, app, custom, pc, CapabilityError, invalid_action,
}

-- A byte vector.
abbrev pub Bytes : Type 0
Bytes = List ℕ

pub data TypedAction : Type 0 where
  web_search : (query : Text) (max_results : ℕ) → TypedAction
  web_fetch : (url : Text) → TypedAction
  artifact_download : (url path : Text) → TypedAction
  artifact_upload : (url path : Text) → TypedAction
  browser_observe : (target : Text) → TypedAction
  browser_interact : (target operation : Text) (value : Option Text) → TypedAction
  file_read : (path : Text) → TypedAction
  file_write : (path : Text) (bytes : Bytes) → TypedAction
  device_observe : (surface : Text) → TypedAction
  device_interact : (surface operation : Text) (argument : Option Text) → TypedAction
  app_action : (app action : Text) (payload : Bytes) → TypedAction
  pc_observe : (peer surface : Text) → TypedAction
  pc_execute : (peer program : Text) (args : List Text) (working_dir : Option Text) → TypedAction
  pc_artifact_read : (peer path : Text) → TypedAction
  pc_artifact_write : (peer path : Text) (bytes : Bytes) → TypedAction
  custom_action : (type_name : Text) (payload : Bytes) → TypedAction

unfoldable pub domain : TypedAction → CapabilityDomain
domain (web_search _ _) = web
domain (web_fetch _) = web
domain (artifact_download _ _) = web
domain (artifact_upload _ _) = web
domain (browser_observe _) = browser
domain (browser_interact _ _ _) = browser
domain (file_read _) = file
domain (file_write _ _) = file
domain (device_observe _) = device
domain (device_interact _ _ _) = device
domain (app_action _ _ _) = app
domain (pc_observe _ _) = pc
domain (pc_execute _ _ _ _) = pc
domain (pc_artifact_read _ _) = pc
domain (pc_artifact_write _ _ _) = pc
domain (custom_action _ _) = custom

unfoldable pub nonempty : Text → Result CapabilityError (Unit {0})
nonempty value = refuse (is_blank value) invalid_action

abbrev pub nonempty_option : Option Text → Result CapabilityError (Unit {0})
nonempty_option none = ok tt
nonempty_option (some value) = nonempty value

unfoldable pub validate : TypedAction → Result CapabilityError (Unit {0})
unfolding nonempty
validate (web_search query max_results) = do
  nonempty query
  refuse (max_results == 0) invalid_action
validate (web_fetch url) = nonempty url
validate (artifact_download url path) = do nonempty url; nonempty path
validate (artifact_upload url path) = do nonempty url; nonempty path
validate (browser_observe target) = nonempty target
validate (browser_interact target operation value) = do nonempty target; nonempty operation
validate (file_read path) = nonempty path
validate (file_write path bytes) = nonempty path
validate (device_observe surface) = nonempty surface
validate (device_interact surface operation argument) = do nonempty surface; nonempty operation
validate (app_action name action payload) = do nonempty name; nonempty action
validate (pc_observe peer surface) = do nonempty peer; nonempty surface
validate (pc_execute peer program args working_dir) = do
  nonempty peer
  nonempty program
  nonempty_option working_dir
validate (pc_artifact_read peer path) = do nonempty peer; nonempty path
validate (pc_artifact_write peer path bytes) = do nonempty peer; nonempty path
validate (custom_action type_name payload) = nonempty type_name

pub data ActionValue : Type 0 where
  no_value : ActionValue
  text_value : Text → ActionValue
  bytes_value : Bytes → ActionValue
  text_list : List Text → ActionValue
  fields : BTreeMap Text Text → ActionValue

pub record ActionOutput : Type 0 where
  pub summary : Text
  pub value : ActionValue
  pub evidence : List Text

unfoldable pub output_text : Text → Text → ActionOutput
output_text summary value = record { summary = summary; value = text_value value; evidence = [] }
