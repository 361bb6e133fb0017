-- ===== src/Session/Texts.antt =====
-- src/core/manager/ClientSession.cpp: the texts of the log, `optionValueToString`,
-- `messageContentToString` and `messageToString`.
pub mod Reading
use neo_group_captcha_bot.Common.{
  List, [], ◌∷◌, is_empty, if◌then◌else◌, ℤ, pos, Bool, true, false, Option, none, some, ◌++◌,
  Bytes, codes,
}
use neo_group_captcha_bot.TextUtils.RoundTrip.{print_signed}
use neo_group_captcha_bot.Td.{
  OptionValue, option_value_boolean, option_value_empty, option_value_integer, option_value_string,
  other_value, PlainContent, message_animation, message_audio, message_document, message_photo,
  message_sticker, message_video, message_video_note, message_voice_note, message_location,
  message_venue, message_contact, message_dice, message_game, message_poll, message_invoice,
  message_call, message_basic_group_chat_create, message_supergroup_chat_create,
  message_chat_change_title, message_chat_change_photo, message_chat_delete_photo,
  message_chat_add_members, message_chat_join_by_link, message_chat_delete_member,
  message_chat_upgrade_to, message_chat_upgrade_from, message_pin_message, message_screenshot_taken,
  message_chat_set_ttl, message_custom_service_action, message_game_score,
  message_payment_successful, message_payment_successful_bot, message_contact_registered,
  message_website_connected, message_passport_data_sent, message_passport_data_received,
  message_unsupported, MessageContent, message_text, plain_content, other_content, Message, User,
}

-- A text between quotation marks, and the text for an identifier that is not known.
abbrev pub quoted : Bytes → Bytes
quoted text = codes "\"" ++ (text ++ codes "\"")

abbrev pub unknown : ℤ → Bytes
unknown id = codes "<UNKNOWN ID: " ++ (print_signed 10 id ++ codes ">")

unfoldable pub option_value_to_string : Option OptionValue → Bytes
option_value_to_string none = codes "<null>"
option_value_to_string (some (option_value_boolean true)) = codes "1"
option_value_to_string (some (option_value_boolean false)) = codes "0"
option_value_to_string (some option_value_empty) = codes "<empty>"
option_value_to_string (some (option_value_integer value)) = print_signed 10 value
option_value_to_string (some (option_value_string text)) = quoted text
option_value_to_string (some (other_value id)) = unknown id

unfoldable pub plain_name : PlainContent → Bytes
plain_name message_animation = codes "<animation>"
plain_name message_audio = codes "<audio>"
plain_name message_document = codes "<document>"
plain_name message_photo = codes "<photo>"
plain_name message_sticker = codes "<sticker>"
plain_name message_video = codes "<video>"
plain_name message_video_note = codes "<videoNote>"
plain_name message_voice_note = codes "<voiceNote>"
plain_name message_location = codes "<location>"
plain_name message_venue = codes "<venue>"
plain_name message_contact = codes "<contact>"
plain_name message_dice = codes "<dice>"
plain_name message_game = codes "<game>"
plain_name message_poll = codes "<poll>"
plain_name message_invoice = codes "<invoice>"
plain_name message_call = codes "<call>"
plain_name message_basic_group_chat_create = codes "<basicGroupChatCreate>"
plain_name message_supergroup_chat_create = codes "<supergroupChatCreate>"
plain_name message_chat_change_title = codes "<chatChangeTitle>"
plain_name message_chat_change_photo = codes "<chatChangePhoto>"
plain_name message_chat_delete_photo = codes "<chatDeletePhoto>"
plain_name message_chat_add_members = codes "<chatAddMembers>"
plain_name message_chat_join_by_link = codes "<chatJoinByLink>"
plain_name message_chat_delete_member = codes "<chatDeleteMember>"
plain_name message_chat_upgrade_to = codes "<chatUpgradeTo>"
plain_name message_chat_upgrade_from = codes "<chatUpgradeFrom>"
plain_name message_pin_message = codes "<pinMessage>"
plain_name message_screenshot_taken = codes "<screenshotTaken>"
plain_name message_chat_set_ttl = codes "<chatSetTtl>"
plain_name message_custom_service_action = codes "<customServiceAction>"
plain_name message_game_score = codes "<gameScore>"
plain_name message_payment_successful = codes "<paymentSuccessful>"
plain_name message_payment_successful_bot = codes "<paymentSuccessfulBot>"
plain_name message_contact_registered = codes "<contactRegistered>"
plain_name message_website_connected = codes "<websiteConnected>"
plain_name message_passport_data_sent = codes "<passportDataSent>"
plain_name message_passport_data_received = codes "<passportDataReceived>"
plain_name message_unsupported = codes "<unsupported>"

unfoldable pub message_content_to_string : Option MessageContent → Bytes
unfolding plain_name
message_content_to_string none = codes "<null>"
message_content_to_string (some (message_text text)) = quoted text
message_content_to_string (some (plain_content kind rest)) = plain_name kind
message_content_to_string (some (other_content id rest)) = unknown id

-- With `td_api::message::ID`.
unfoldable pub message_to_string : ℤ → Option Message → Bytes
unfolding message_content_to_string
message_to_string message_id none = codes "<null>"
message_to_string message_id (some message) =
    codes "{"
    ++ ((codes "\"type\":\"" ++ (print_signed 10 message_id ++ codes "\","))
        ++ ((codes "\"chat_id\":\"" ++ (print_signed 10 message.chat_id ++ codes "\","))
            ++ ((codes "\"content\":" ++ message_content_to_string message.content) ++ codes "}")))

-- The text of `handleUpdateUser`: the name, and " @" and the user name if there is one.
unfoldable pub user_info : User → Bytes
user_info user =
    let last = if is_empty user.last_name then [] else codes " " ++ user.last_name in
    let reference = if is_empty user.username then [] else codes " @" ++ user.username in
    (user.first_name ++ last) ++ reference

-- The text of `handleUpdateDeleteMessages`: the identifiers.
unfoldable pub message_ids : List ℤ → Bytes
message_ids [] = []
message_ids (id ∷ ids) = (print_signed 10 id ++ codes ", ") ++ message_ids ids
