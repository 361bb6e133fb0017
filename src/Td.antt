-- ===== src/Td.antt =====
-- The objects of the Telegram client library that src/core/manager/ClientSession.cpp,
-- src/core/manager/SessionManager.cpp and src/core/startup.cpp name: for each kind of object whose
-- `get_id()` they test a constructor with the fields that they read, and one constructor for every
-- other kind. A null `object_ptr` is `none`.
use neo_group_captcha_bot.Common.{ℕ, Bool, Option, ℤ, Bytes}

pub data OptionValue : Type 0 where
  option_value_boolean : Bool → OptionValue
  option_value_empty : OptionValue
  option_value_integer : ℤ → OptionValue
  option_value_string : Bytes → OptionValue
  other_value : ℤ → OptionValue

-- td_api::AuthorizationState.
pub data AuthorizationState : Type 0 where
  wait_tdlib_parameters wait_encryption_key wait_phone_number : AuthorizationState
  ready wait_code wait_password : AuthorizationState
  other_state : ℕ → AuthorizationState

pub record User : Type 0 where
  pub id : ℤ
  pub username : Bytes
  pub first_name : Bytes
  pub last_name : Bytes

-- The contents that are named where a message is printed, and are not text.
pub data PlainContent : Type 0 where
  message_animation message_audio message_document message_photo message_sticker : PlainContent
  message_video message_video_note message_voice_note message_location message_venue : PlainContent
  message_contact message_dice message_game message_poll message_invoice message_call : PlainContent
  message_basic_group_chat_create message_supergroup_chat_create message_chat_change_title :
      PlainContent
  message_chat_change_photo message_chat_delete_photo message_chat_add_members : PlainContent
  message_chat_join_by_link message_chat_delete_member message_chat_upgrade_to : PlainContent
  message_chat_upgrade_from message_pin_message message_screenshot_taken message_chat_set_ttl :
      PlainContent
  message_custom_service_action message_game_score message_payment_successful : PlainContent
  message_payment_successful_bot message_contact_registered message_website_connected : PlainContent
  message_passport_data_sent message_passport_data_received message_unsupported : PlainContent

-- The text of a message; a kind, or the identifier of one that is not named here, with the bytes of
-- the object's other members (the caption of a photo, say).
pub data MessageContent : Type 0 where
  message_text : Bytes → MessageContent
  plain_content : PlainContent → Bytes → MessageContent
  other_content : ℤ → Bytes → MessageContent

pub record Message : Type 0 where
  pub chat_id : ℤ
  pub is_outgoing : Bool
  pub date : ℕ  -- int32_t, seconds since the epoch
  pub content : Option MessageContent

-- The updates that the session answers by a log line at most.
pub data Logged : Type 0 where
  animation_search_parameters selected_background chat_themes dice_emojis : Logged
  recent_stickers have_pending_notifications chat_filters chat_action_bar chat_title : Logged
  scope_notification_settings chat_message_ttl reactions message_content message_edited : Logged
  chat_last_message chat_read_inbox chat_read_outbox chat_notification_settings : Logged
  chat_position supergroup_full_info chat_unread_mention_count message_mention_read : Logged
  message_is_pinned chat_video_chat user_status chat_action user_full_info : Logged
  chat_available_reactions chat_unread_reaction_count chat_message_sender : Logged
  message_interaction_info connection_state new_chat basic_group supergroup : Logged
  delete_messages message_send_succeeded : Logged

-- td_api::Object, as it is received.
pub data Object : Type 0 where
  error : ℤ → Bytes → Object
  ok : Object
  update_authorization_state : Option AuthorizationState → Object
  update_option : Bytes → Option OptionValue → Object
  update_user : Option User → Object
  update_new_message : Option Message → Object
  update_logged : Logged → Object
  other_object : ℕ → Object

-- td::ClientManager::Response.
pub record Response : Type 0 where
  pub client_id : ℤ
  pub request_id : ℕ  -- uint64_t
  pub object : Option Object

-- ClientSession::TdLibParameters, and td_api::tdlibParameters, which has the same fields.
pub record TdLibParameters : Type 0 where
  pub use_test_dc : Bool
  pub database_directory : Bytes
  pub files_directory : Bytes
  pub use_file_database : Bool
  pub use_chat_info_database : Bool
  pub use_message_database : Bool
  pub use_secret_chats : Bool
  pub api_id : ℤ
  pub api_hash : Bytes
  pub system_language_code : Bytes
  pub device_model : Bytes
  pub system_version : Bytes
  pub application_version : Bytes
  pub enable_storage_optimizer : Bool
  pub ignore_file_names : Bool

-- td_api::Function, as it is sent.
pub data Function : Type 0 where
  set_tdlib_parameters : TdLibParameters → Function
  set_option : Bytes → Bool → Function
  get_option : Bytes → Function
  check_database_encryption_key : Function
  check_authentication_bot_token : Bytes → Function
  set_authentication_phone_number : Bytes → Function
  check_authentication_code : Bytes → Function
  check_authentication_password : Bytes → Function
  send_message : ℤ → ℕ → Bytes → Function
