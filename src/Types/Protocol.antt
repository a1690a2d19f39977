-- ===== src/Types/Protocol.antt =====
-- zel_types/src/protocol.rs: the messages of the wire protocol.
use zel.Prelude.{String, Bytes}

pub data Body : Type 0 where
  subscribe : Body
  rpc : Bytes → Body
  stream : Bytes → Body
  notify : Bytes → Body

pub record Request : Type 0 where
  pub service : String
  pub resource : String
  pub body : Body

pub record Response : Type 0 where
  pub payload : Bytes

pub data SubscriptionMsg : Type 0 where
  established : (service resource : String) → SubscriptionMsg
  payload : Bytes → SubscriptionMsg
  stopped : SubscriptionMsg
  server_shutdown : SubscriptionMsg

pub data NotificationMsg : Type 0 where
  established : (service resource : String) → NotificationMsg
  payload : Bytes → NotificationMsg
  ack : NotificationMsg
  error : String → NotificationMsg
  completed : NotificationMsg
  server_shutdown : NotificationMsg
