-- ===== src/Shared/User.antt =====
-- crates/shared/src/lib.rs: the requests and responses about users and blocks.
use rsmsg.Base.{Bool, List}
use rsmsg.Base.Text.{Text}

pub record UserRegisterRequest : Type 0 where
  pub user_id : Text
  pub password : Text
  pub invite_code : Text

pub record UserRegisterResponse : Type 0 where
  pub created : Bool

pub record UserLoginRequest : Type 0 where
  pub user_id : Text
  pub password : Text

pub record UserLoginResponse : Type 0 where
  pub ok : Bool

pub record ResolveUserRequest : Type 0 where
  pub user_id : Text
  pub device_id : Text

pub record ResolveUserResponse : Type 0 where
  pub device_uuid : Text

pub record ResolveDeviceRequest : Type 0 where
  pub device_uuid : Text

pub record ResolveDeviceResponse : Type 0 where
  pub user_id : Text

pub record UserSearchRequest : Type 0 where
  pub query : Text

pub record UserSearchResponse : Type 0 where
  pub users : List Text

pub record BlockUserRequest : Type 0 where
  pub user_id : Text

pub record BlockUserResponse : Type 0 where
  pub blocked : Bool

pub record UnblockUserRequest : Type 0 where
  pub user_id : Text

pub record UnblockUserResponse : Type 0 where
  pub unblocked : Bool

pub record BlockedUsersResponse : Type 0 where
  pub users : List Text

pub record UserOnlineRequest : Type 0 where
  pub user_id : Text
  pub device_id : Text

pub record UserOnlineResponse : Type 0 where
  pub online : Bool
