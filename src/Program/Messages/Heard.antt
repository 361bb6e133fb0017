-- ===== src/Program/Messages/Heard.antt =====
-- src/core/startup.cpp, the message handler: the messages that come in over a run of the program.
use neo_group_captcha_bot.Common.{
  ◌≡◌, refl, ap, ◌⊎◌, inl, inr, false, List, [], ◌∷◌, Option, none, some, Bytes, All,
}
use neo_group_captcha_bot.Td.{
  Message, MessageContent, message_text, plain_content, other_content, Object, error, ok,
  update_authorization_state, update_option, update_user, update_new_message, update_logged,
  other_object,
}
use neo_group_captcha_bot.Program.{
  Event, creates, asks_option, logs_in_bot, logs_in_user, sets_handler, dispatches, runs,
}
use neo_group_captcha_bot.Program.Messages.{AllowsContent, Allows}
use neo_group_captcha_bot.Program.Messages.Runs.{Permits}

-- The event hands the program an update with this message from somebody else, which has this text.
abbrev pub Hears : Event → Message → Bytes → Type 0
Hears (dispatches env response) m text =
    (response.request_id ≡ 0)
    × (response.object ≡ some (update_new_message (some m)))
    × (m.is_outgoing ≡ false)
    × (m.content ≡ some (message_text text))
Hears _ m text = ⊥

abbrev pub HeardIn : List Event → Message → Bytes → Type 0
HeardIn [] m text = ⊥
HeardIn (e ∷ es) m text = Hears e m text ⊎ HeardIn es m text

module _ (A : Message → Bytes → Type 0) where
  AllowsContent-text :
      (c : Option MessageContent) (m : Message)
      → ((text : Bytes) → c ≡ some (message_text text) → A m text)
      → AllowsContent A c m
  AllowsContent-text none m f = tt
  AllowsContent-text (some (message_text text)) m f = f text refl
  AllowsContent-text (some (plain_content kind rest)) m f = tt
  AllowsContent-text (some (other_content id rest)) m f = tt

  Allows-object :
      (o : Object)
      → ((m : Message) (text : Bytes)
          → o ≡ update_new_message (some m)
          → m.is_outgoing ≡ false
          → m.content ≡ some (message_text text)
          → A m text)
      → Allows A o
  Allows-object (update_new_message (some m)) f =
      λ h. AllowsContent-text m.content m (λ text e. f m text refl h e)
  Allows-object (update_new_message none) f = tt
  Allows-object (update_authorization_state state) f = tt
  Allows-object (update_option name value) f = tt
  Allows-object (update_user user) f = tt
  Allows-object (update_logged kind) f = tt
  Allows-object (error code m) f = tt
  Allows-object ok f = tt
  Allows-object (other_object id) f = tt

  Allows-response :
      (o : Option Object)
      → ((m : Message) (text : Bytes)
          → o ≡ some (update_new_message (some m))
          → m.is_outgoing ≡ false
          → m.content ≡ some (message_text text)
          → A m text)
      → elim o as (λ x. Type 0) [ none ↦ Unit | some object ↦ Allows A object ]
  Allows-response none f = tt
  Allows-response (some object) f = Allows-object object (λ m text e. f m text (ap some e))

  Permits-Hears :
      (e : Event) → ((m : Message) (text : Bytes) → Hears e m text → A m text) → Permits A e
  Permits-Hears (dispatches env response) f =
      λ h. Allows-response response.object (λ m text e g c. f m text (h, e, g, c))
  Permits-Hears (creates id parameters spawn) f = tt
  Permits-Hears (asks_option id name) f = tt
  Permits-Hears (logs_in_bot id token) f = tt
  Permits-Hears (logs_in_user id phone) f = tt
  Permits-Hears (sets_handler id h) f = tt
  Permits-Hears (runs id task line) f = tt

  -- What allows each text that comes in permits each event.
  pub Permits-HeardIn :
      (es : List Event)
      → ((m : Message) (text : Bytes) → HeardIn es m text → A m text)
      → All (Permits A) es
  Permits-HeardIn [] f = tt
  Permits-HeardIn (e ∷ es) f = (
    Permits-Hears e (λ m text h. f m text (inl h)),
    Permits-HeardIn es (λ m text h. f m text (inr h)),
  )
