-- ===== src/Protocol.antt =====
-- IocpServer_1/MESSAGE_WRAPPER_generated.h: the tables of the protocol, each with its accessors, its
-- verifier and its builder, over the FlatBuffers library as a parameter.
pub mod Flatbuffers
pub mod Building
pub mod NotifyMessage
pub mod NotifyRoomlist
pub mod RequestLogin
pub mod RequestLogout
pub mod RequestRegist
pub mod RequestRoomCreate
pub mod RequestRoomEntrance
pub mod RequestRoomLeave
pub mod RequestSendMessage
pub mod ResponseLogin
pub mod ResponseLogout
pub mod ResponseRegist
pub mod ResponseRoomCreate
pub mod ResponseRoomEntrance
pub mod ResponseRoomLeave
pub mod ResponseSendMessage
pub mod Message
pub mod Requests
pub mod Responses
pub mod Roundtrip
pub mod MessageType
pub mod MessageContent
pub mod Wrapper
pub mod Union
pub mod Vector
pub mod Content
pub mod Buffer
pub mod Names
mod Tests
