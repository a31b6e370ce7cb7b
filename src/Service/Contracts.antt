-- ===== src/Service/Contracts.antt =====
-- The messages of the service transport (internal/service_transport.go) and what it takes from
-- libsignal-service-go.
use workflow_plugin_signal.Base.{Bool, Option, List, Str, Dict, Result}
use workflow_plugin_signal.Service.Approval.{ApprovalContract, ApprovalPackage}
use workflow_plugin_signal.Service.Requests.{
  RequestInput, RequestMetadata, ResponseMetadata, ServiceRequest, ServiceError, ServiceLibrary,
}

pub record ServiceTransportConfig : Type 0 where
  pub transport_ref : Str
  pub mode : Str
  pub sandbox_endpoint : Str
  pub requested_actions : List Str
  pub approval : Option ApprovalContract

-- serviceclient.TransportConfig, less the time of the approval, which is the clock's
pub record TransportConfig : Type 0 where
  pub mode : Str
  pub sandbox_endpoint : Str
  pub approval_package : ApprovalPackage
  pub requested_actions : List Str

pub record ServiceLiveSubmitConfig : Type 0 where
  pub transport_ref : Str
  pub mode : Str
  pub sandbox_endpoint : Str
  pub account_ref : Str
  pub expired_credentials : Bool
  pub approval : Option ApprovalContract

pub record ServiceLiveSubmitInput : Type 0 where
  pub transport_ref : Str
  pub mode : Str
  pub sandbox_endpoint : Str
  pub operation : Str
  pub request : RequestInput
  pub username : Str
  pub link_code_ref : Str
  pub recipient_ref : Str
  pub payload_ref : Str
  pub cursor_ref : Str
  pub backup_ref : Str
  pub backup_id : Str
  pub challenge_response_ref : Str
  pub approval : Option ApprovalContract

pub record ServiceSubmitOutput : Type 0 where
  pub transport_ref : Str
  pub transport_mode : Str
  pub operation : Str
  pub account_ref : Str
  pub device_ref : Str
  pub request_id : Str
  pub status : Str
  pub challenge_ref : Str
  pub secret_refs : Dict Str
  pub credential_ref : Str
  pub audit_ref : Str
  pub live_egress_attempted : Bool
  pub denied_reasons : List Str

-- The constants of servicepolicy and serviceclient, serviceclient.NewTransport with its transport's
-- mode and calls, at one moment.
pub record TransportLibrary (l : ServiceLibrary) : Type 0 where
  pub mode_fake : Str
  pub mode_sandbox : Str
  pub action_register : Str
  pub action_linked_device : Str
  pub action_send : Str
  pub action_receive : Str
  pub action_username_reserve : Str
  pub action_backup_upload : Str
  pub action_backup_download : Str
  pub new_transport : TransportConfig → Result ServiceError (Unit {0})
  pub transport_mode : TransportConfig → Str
  pub call :
      TransportConfig
      → l.Client
      → RequestMetadata
      → ServiceRequest
      → Result ServiceError ResponseMetadata × l.Client
