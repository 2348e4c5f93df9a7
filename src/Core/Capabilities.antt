-- ===== src/Core/Capabilities.antt =====
-- src/core/protocol-capabilities.ts: what is published of each surface.
use Prim.Native.String.{String}
use cmm_routers.Prelude.{Bool, true, false, ◌&&◌, Option, none, some, ◌++◌, ◌≡◌, ◌↔◌, arith}
use cmm_routers.Prelude.OrderedMap.{OrderedMap}
use cmm_routers.Core.Profile.{ProviderCapability, carries_tools, chat_and_tools}
use cmm_routers.Core.Model.{ProviderId}
use cmm_routers.Core.ToolKind.{
  ToolDeclarationKind, ToolKindSupport, supported, tool_kind_policy_for,
}
use cmm_routers.Core.ToolPolicy.{
  ToolChoiceSupport, full, ToolPolicySupport, provider_tool_policy_support,
}
use cmm_routers.Core.RequestControls.{
  RequestControlState, request_control_truth, openai_unsupported_semantic_controls,
  openai_chat_supported_controls, openai_responses_supported_controls,
  openai_responses_rejected_controls, anthropic_unsupported_semantic_controls,
  anthropic_supported_controls,
}

pub data DownstreamProtocol : Type 0 where
  openai_chat openai_responses anthropic_messages : DownstreamProtocol

pub record SurfaceTools : Type 0 where
  pub function : Bool
  pub namespace : Bool
  pub hosted : Bool
  pub parallel_tool_calls : Bool
  pub tool_choice : ToolChoiceSupport

pub record SurfaceAuth : Type 0 where
  pub authorization_bearer : Bool
  pub api_key_header : Bool

pub record SurfaceCapabilities : Type 0 where
  pub available : Bool
  pub streaming : Bool
  pub cancellation : Bool
  pub developer_role : Bool
  pub system_field : Bool
  pub tools : SurfaceTools
  pub auth : SurfaceAuth
  pub request_controls : OrderedMap String RequestControlState

pub record CanonicalToolCapabilities : Type 0 where
  pub function : Bool
  pub namespace : Bool
  pub hosted : Bool

pub record ProtocolCapabilities : Type 0 where
  pub canonical_tools : CanonicalToolCapabilities
  pub protocols : DownstreamProtocol → SurfaceCapabilities

abbrev pub is_supported : ToolKindSupport → Bool
is_supported supported = true
is_supported _ = false

unfoldable pub tool_truth : Bool → ToolPolicySupport → SurfaceTools
unfolding tool_kind_policy_for
tool_truth tool_capable policy = record {
  function = tool_capable && is_supported (tool_kind_policy_for ToolDeclarationKind.function);
  namespace = tool_capable && is_supported (tool_kind_policy_for ToolDeclarationKind.namespace);
  hosted = tool_capable && is_supported (tool_kind_policy_for ToolDeclarationKind.hosted);
  parallel_tool_calls = policy.parallel_tool_calls;
  tool_choice = policy.tool_choice;
}

unfoldable pub openai_surface :
    OrderedMap String RequestControlState → Bool → ToolPolicySupport → SurfaceCapabilities
unfolding tool_truth
openai_surface controls tool_capable policy = record {
  available = true;
  streaming = true;
  cancellation = true;
  developer_role = true;
  system_field = false;
  tools = tool_truth tool_capable policy;
  auth = record { authorization_bearer = true; api_key_header = false };
  request_controls = controls;
}

unfoldable pub anthropic_surface : Bool → ToolPolicySupport → SurfaceCapabilities
unfolding tool_truth
anthropic_surface tool_capable policy = record {
  available = true;
  streaming = true;
  cancellation = true;
  developer_role = false;
  system_field = true;
  tools = tool_truth tool_capable policy;
  auth = record { authorization_bearer = true; api_key_header = true };
  request_controls =
      request_control_truth anthropic_supported_controls anthropic_unsupported_semantic_controls;
}

abbrev pub policy_of : Option ProviderId → ToolPolicySupport
policy_of none = record { tool_choice = full; parallel_tool_calls = true }
policy_of (some p) = provider_tool_policy_support p

-- the surface of each protocol
unfoldable pub surface_of : Bool → ToolPolicySupport → DownstreamProtocol → SurfaceCapabilities
unfolding openai_surface anthropic_surface
surface_of tool_capable policy openai_chat =
    openai_surface
      (request_control_truth openai_chat_supported_controls openai_unsupported_semantic_controls)
      tool_capable policy
surface_of tool_capable policy openai_responses =
    openai_surface
      (request_control_truth openai_responses_supported_controls
        (openai_unsupported_semantic_controls ++ openai_responses_rejected_controls))
      tool_capable policy
surface_of tool_capable policy anthropic_messages = anthropic_surface tool_capable policy

unfoldable pub protocol_capabilities_for :
    Option ProviderCapability → Option ProviderId → ProtocolCapabilities
unfolding surface_of
protocol_capabilities_for capability provider = record {
  canonical_tools = record {
    function = is_supported (tool_kind_policy_for ToolDeclarationKind.function);
    namespace = is_supported (tool_kind_policy_for ToolDeclarationKind.namespace);
    hosted = is_supported (tool_kind_policy_for ToolDeclarationKind.hosted);
  };
  protocols = surface_of (carries_tools capability) (policy_of provider);
}

-- On every surface function tools are published exactly for the capability CHAT_AND_TOOLS, no other
-- class of tool is published ever, and the tool choice is published as the provider is held to.
pub protocol_capabilities_for_lem :
    (capability : Option ProviderCapability) (provider : ProviderId) (p : DownstreamProtocol)
    → let tools = ((protocol_capabilities_for capability (some provider)).protocols p).tools in
      ((tools.function ≡ true) ↔ (capability ≡ some chat_and_tools))
      × (tools.namespace ≡ false)
      × (tools.hosted ≡ false)
      × (tools.tool_choice ≡ (provider_tool_policy_support provider).tool_choice)
unfolding protocol_capabilities_for tool_kind_policy_for
protocol_capabilities_for_lem capability provider openai_chat = ground arith
protocol_capabilities_for_lem capability provider openai_responses = ground arith
protocol_capabilities_for_lem capability provider anthropic_messages = ground arith
