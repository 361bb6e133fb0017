-- ===== src/Session/Texts/Reading.antt =====
-- src/core/manager/ClientSession.cpp: reading back what the log says of a message's content.
use neo_group_captcha_bot.Common.{
  ℕ, ◌≡◌, refl, ap, ◌++◌, pos, false, List, [], ◌∷◌, Option, none, some, Bytes, codes, bytes_eq,
  starts_with, drop, if◌then◌else◌, arith,
}
use neo_group_captcha_bot.TextUtils.Numbers.{parse_signed, starts_number, digit_value}
use neo_group_captcha_bot.TextUtils.Ranges.{Fits}
use neo_group_captcha_bot.TextUtils.RoundTrip.{parse_signed-print}
use neo_group_captcha_bot.Td.{
  PlainContent, message_animation, message_audio, message_document, message_photo, message_sticker,
  message_video, message_video_note, message_voice_note, message_location, message_venue,
  message_contact, message_dice, message_game, message_poll, message_invoice, message_call,
  message_basic_group_chat_create, message_supergroup_chat_create, message_chat_change_title,
  message_chat_change_photo, message_chat_delete_photo, message_chat_add_members,
  message_chat_join_by_link, message_chat_delete_member, message_chat_upgrade_to,
  message_chat_upgrade_from, message_pin_message, message_screenshot_taken, message_chat_set_ttl,
  message_custom_service_action, message_game_score, message_payment_successful,
  message_payment_successful_bot, message_contact_registered, message_website_connected,
  message_passport_data_sent, message_passport_data_received, message_unsupported, MessageContent,
  message_text, plain_content, other_content,
}
use neo_group_captcha_bot.Session.Texts.{plain_name, message_content_to_string}

abbrev kinds : List PlainContent
kinds =
    message_animation ∷ message_audio ∷ message_document ∷ message_photo ∷ message_sticker
    ∷ message_video ∷ message_video_note ∷ message_voice_note ∷ message_location ∷ message_venue
    ∷ message_contact ∷ message_dice ∷ message_game ∷ message_poll ∷ message_invoice ∷ message_call
    ∷ message_basic_group_chat_create ∷ message_supergroup_chat_create ∷ message_chat_change_title
    ∷ message_chat_change_photo ∷ message_chat_delete_photo ∷ message_chat_add_members
    ∷ message_chat_join_by_link ∷ message_chat_delete_member ∷ message_chat_upgrade_to
    ∷ message_chat_upgrade_from ∷ message_pin_message ∷ message_screenshot_taken
    ∷ message_chat_set_ttl ∷ message_custom_service_action ∷ message_game_score
    ∷ message_payment_successful ∷ message_payment_successful_bot ∷ message_contact_registered
    ∷ message_website_connected ∷ message_passport_data_sent ∷ message_passport_data_received
    ∷ message_unsupported ∷ []

-- The kind with that name, if there is one.
abbrev named : Bytes → List PlainContent → Option PlainContent
named name [] = none
named name (kind ∷ rest) =
    let later = named name rest in if bytes_eq (plain_name kind) name then some kind else later

abbrev without_last : Bytes → Bytes
without_last [] = []
without_last (c ∷ []) = []
without_last (c ∷ d ∷ rest) = c ∷ without_last (d ∷ rest)

without_last_lem : (text : Bytes) (c : ℕ) → without_last (text ++ (c ∷ [])) ≡ text
without_last_lem [] c = refl
without_last_lem (x ∷ []) c = refl
without_last_lem (x ∷ y ∷ rest) c = ap (◌∷◌ x) (without_last_lem (y ∷ rest) c)

abbrev as_content : Option PlainContent → Option MessageContent
as_content none = none
as_content (some kind) = some (plain_content kind [])

-- The content that a text of the log stands for.
abbrev pub read_back : Bytes → Option MessageContent
read_back text =
    if starts_with (codes "\"") text
    then some (message_text (without_last (drop 1 text)))
    else if starts_with (codes "<UNKNOWN ID: ") text
    then some (other_content (parse_signed 32 (pos 0) (drop 13 text) 10).1 [])
    else as_content (named text kinds)

-- An identifier of the client library is an `int32_t`.
abbrev pub IsContent : Option MessageContent → Type 0
IsContent (some (other_content id rest)) = Fits 32 id
IsContent _ = Unit

plain-read_back : (kind : PlainContent) → read_back (plain_name kind) ≡ some (plain_content kind [])
unfolding plain_name starts_with bytes_eq
plain-read_back message_animation = refl
plain-read_back message_audio = refl
plain-read_back message_document = refl
plain-read_back message_photo = refl
plain-read_back message_sticker = refl
plain-read_back message_video = refl
plain-read_back message_video_note = refl
plain-read_back message_voice_note = refl
plain-read_back message_location = refl
plain-read_back message_venue = refl
plain-read_back message_contact = refl
plain-read_back message_dice = refl
plain-read_back message_game = refl
plain-read_back message_poll = refl
plain-read_back message_invoice = refl
plain-read_back message_call = refl
plain-read_back message_basic_group_chat_create = refl
plain-read_back message_supergroup_chat_create = refl
plain-read_back message_chat_change_title = refl
plain-read_back message_chat_change_photo = refl
plain-read_back message_chat_delete_photo = refl
plain-read_back message_chat_add_members = refl
plain-read_back message_chat_join_by_link = refl
plain-read_back message_chat_delete_member = refl
plain-read_back message_chat_upgrade_to = refl
plain-read_back message_chat_upgrade_from = refl
plain-read_back message_pin_message = refl
plain-read_back message_screenshot_taken = refl
plain-read_back message_chat_set_ttl = refl
plain-read_back message_custom_service_action = refl
plain-read_back message_game_score = refl
plain-read_back message_payment_successful = refl
plain-read_back message_payment_successful_bot = refl
plain-read_back message_contact_registered = refl
plain-read_back message_website_connected = refl
plain-read_back message_passport_data_sent = refl
plain-read_back message_passport_data_received = refl
plain-read_back message_unsupported = refl

null-read_back : read_back (codes "<null>") ≡ none
unfolding plain_name starts_with bytes_eq
null-read_back = refl

bracket-no_digit : starts_number 10 (codes ">") ≡ false
unfolding digit_value
bracket-no_digit = refl

-- A content without the members that the log says nothing of.
abbrev pub shown : Option MessageContent → Option MessageContent
shown none = none
shown (some (message_text text)) = some (message_text text)
shown (some (plain_content kind rest)) = some (plain_content kind [])
shown (some (other_content id rest)) = some (other_content id [])

-- What the log says of a content, and what it loses: from what `messageContentToString` prints one
-- can read back whether there is a content, its kind, the text of a text, and the identifier of a kind
-- that is printed as unknown (a signed number of 32 bits); and nothing more, since the text is the
-- same without the other members.
pub message_content_to_string-read_back :
    (content : Option MessageContent)
    → IsContent content
    → (read_back (message_content_to_string content) ≡ shown content)
      × (message_content_to_string (shown content) ≡ message_content_to_string content)
unfolding message_content_to_string starts_with
message_content_to_string-read_back none h = (null-read_back, refl)
message_content_to_string-read_back (some (message_text text)) h =
    (ap (λ t. some (message_text t)) (without_last_lem text 34), refl)
message_content_to_string-read_back (some (plain_content kind rest)) h =
    (plain-read_back kind, refl)
message_content_to_string-read_back (some (other_content id rest)) h = (
  ap (λ r. some (other_content r.1 []))
      (parse_signed-print 32 10 (pos 0) id (codes ">") (omega arith) (omega arith) h
        bracket-no_digit),
  refl,
)
