-- ===== src/Examples/Merging.antt =====
-- Instances for the merge of queued messages (Source/ARTProtocolMessage.m).
use ably_cocoa.Base.{◌≡◌, false, none}
use ably_cocoa.Types.{Action}
use ably_cocoa.Message.{ProtocolMessage, merge_from}
use ably_cocoa.Message.Merge.{Merged, merge_from-cases}
use ably_cocoa.Examples.{published, protocol_message}
use ably_cocoa.Base.{◌⊎◌}

merge_from-cases_example :
    (merge_from published published ≡ (published, false)) ⊎ Merged published published
merge_from-cases_example = merge_from-cases published published

abbrev entering : ProtocolMessage
entering = protocol_message Action.presence none
