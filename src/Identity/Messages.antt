-- ===== src/Identity/Messages.antt =====
-- The messages of identity.proto. The two services have the same ones.
use doc_lens.Base.{String, Bool, List}

pub record CreateUserRequest : Type 0 where
  pub organization_id : String
  pub email : String
  pub password : String
  pub roles : List String

pub record LoginRequest : Type 0 where
  pub email : String
  pub password : String

pub record ProtoUser : Type 0 where
  pub id : String
  pub organization_id : String
  pub email : String
  pub roles : List String
  pub disabled : Bool
  pub created_at : String

pub record LoginResponse : Type 0 where
  pub access_token : String
  pub refresh_token : String
  pub user : ProtoUser
