-- ===== src/Shared/Call.antt =====
-- crates/shared/src/lib.rs: the requests and responses about call signals.
use rsmsg.Base.{ℕ, Bool, Option, List}
use rsmsg.Base.Text.{Text}
use rsmsg.Base.Int.{ℤ}

pub record SendCallSignalRequest : Type 0 where
  pub call_id : Text
  pub from_device_uuid : Text
  pub to_device_uuid : Text
  pub kind : Text
  pub payload : Text

pub record SendCallSignalResponse : Type 0 where
  pub accepted : Bool

pub record FetchCallSignalsRequest : Type 0 where
  pub device_uuid : Text
  pub call_id : Option Text
  pub limit : Option ℕ

pub record CallSignalItem : Type 0 where
  pub call_id : Text
  pub from_device_uuid : Text
  pub kind : Text
  pub payload : Text
  pub created_at_unix_ms : ℤ

pub record FetchCallSignalsResponse : Type 0 where
  pub signals : List CallSignalItem
