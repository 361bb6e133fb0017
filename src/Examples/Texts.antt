-- ===== src/Examples/Texts.antt =====
-- src/utils/TextUtils.cpp, src/utils/ProcessUtils.cpp, src/utils/config/ConfigManager.cpp and the texts
-- of src/core/manager/ClientSession.cpp: numbers, the files of a process, names of stores.
use neo_group_captcha_bot.Common.{
  ℕ, ◌≡◌, ◌++◌, refl, map, Bool, true, false, List, [], ◌∷◌, none, some, pos, negsuc, Bytes, All,
  codes, starts_with, arith, ◌==◌, if◌then◌else◌, Bool-cases, inl, inr,
}
use neo_group_captcha_bot.TextUtils.Numbers.{
  parse_signed, parse_int32, parse_int64, parse_uint32, parse_uint64, starts_number, digit_value,
}
use neo_group_captcha_bot.TextUtils.RoundTrip.{print_signed, parse_int32-print}
use neo_group_captcha_bot.Td.{plain_content, other_content, message_poll}
use neo_group_captcha_bot.Session.Texts.{message_content_to_string}
use neo_group_captcha_bot.Session.Texts.Reading.{read_back, message_content_to_string-read_back}
use neo_group_captcha_bot.ProcessUtils.{
  ProcessInfo, ProcessFiles, no_info, get_process_info, Entry, get_running_process_info, listed_uid,
}
use neo_group_captcha_bot.ProcessUtils.Numbers.{stoi}
use neo_group_captcha_bot.ProcessUtils.Info.{HasNo, get_process_info-found}
use neo_group_captcha_bot.ProcessUtils.Listing.{IsReadable, get_running_process_info_lem}

space-no_digit : starts_number 10 (codes " bytes") ≡ false
unfolding digit_value
space-no_digit = refl

parse_int32-print_example :
    (parse_int32 (pos 7) (codes "-42 bytes") 10 ≡ (true, negsuc 41))
    × (parse_int64 (pos 7) (codes "-42 bytes") 10 ≡ (true, negsuc 41))
    × (parse_uint32 7 (codes "5000000000 bytes") 10 ≡ (false, 7))
    × (parse_uint64 7 (codes "5000000000 bytes") 10 ≡ (true, 5000000000))
parse_int32-print_example =
    parse_int32-print 10 (negsuc 41) (pos 7) 5000000000 7 (codes " bytes") (omega arith)
      (omega arith) space-no_digit

-- The text is -42, and a plus sign is refused.
printed : print_signed 10 (negsuc 41) ≡ codes "-42"
printed = refl

plus : parse_signed 32 (pos 7) (codes "+42") 10 ≡ (false, pos 7)
unfolding parse_signed digit_value
plus = refl

message_content_to_string-read_back_example :
    (read_back (message_content_to_string (some (other_content (negsuc 999) (codes "rest"))))
      ≡ some (other_content (negsuc 999) []))
    × (message_content_to_string (some (other_content (negsuc 999) []))
        ≡ message_content_to_string (some (other_content (negsuc 999) (codes "rest"))))
message_content_to_string-read_back_example =
    message_content_to_string-read_back (some (other_content (negsuc 999) (codes "rest")))
      (omega arith)

poll : message_content_to_string (some (plain_content message_poll (codes "rest"))) ≡ codes "<poll>"
unfolding message_content_to_string
poll = refl

-- A test for bytes without a byte.
abbrev is_free : ℕ → Bytes → Bool
is_free c [] = true
is_free c (x ∷ xs) = let rest = is_free c xs in if x == c then false else rest

free : (c : ℕ) (s : Bytes) → is_free c s ≡ true → HasNo c s
free c [] h = tt
free c (x ∷ xs) h = elim (Bool-cases (x == c)) [
  | inl e ↦ absurd (ground (arith, h, e))
  | inr e ↦ (e, free c xs (ground (arith, h, e)))
]

-- The bot, run as user 1000 with one argument.
abbrev uid_text : Bytes
uid_text = codes "1000\t1000\t1000\t1000"

uid_text-stoi : stoi uid_text ≡ some (pos 1000)
unfolding stoi
uid_text-stoi = refl

abbrev cmdline : List Bytes
cmdline = (codes "./bot" ++ (0 ∷ [])) ∷ (codes "-v" ++ (0 ∷ [])) ∷ []

get_process_info-found_example :
    get_process_info (pos 42) no_info (record {
      status = some (codes "Name:\tbot\nUid:\t1000\t1000\t1000\t1000\nGid:\t1000\n");
      cmdline_reads = cmdline;
      exe_link = some (codes "/opt/bot");
    })
    ≡ some (
      true,
      record {
        pid = pos 42;
        uid = pos 1000;
        name = codes "bot";
        exe = codes "/opt/bot";
        cmdline = codes "./bot" ∷ codes "-v" ∷ [];
        argv0 = codes "./bot";
      },
    )
unfolding starts_with
get_process_info-found_example =
    get_process_info-found (pos 42) (pos 1000) no_info (codes "Name:\tbot" ∷ []) uid_text
      (codes "Gid:\t1000\n") cmdline (codes "./bot") (codes "-v" ∷ []) (codes "/opt") (codes "bot")
      ((free 10 (codes "Name:\tbot") refl, refl), tt) (free 10 uid_text refl) uid_text-stoi
      (omega arith, (omega arith, tt)) refl refl
      (free 0 (codes "./bot") refl, (free 0 (codes "-v") refl, tt)) (free 0 (codes "/opt/bot") refl)
      (free 47 (codes "bot") refl) (omega arith)

-- A process whose executable is known, one whose executable is not, and another directory.
abbrev unknown_files : ProcessFiles
unknown_files = record { status = none; cmdline_reads = []; exe_link = none }

abbrev entries : List Entry
entries =
    record {
      is_dir = true;
      entry_name = codes "42";
      files = record unknown_files { exe_link = some (codes "/opt/bot") };
    }
    ∷ record { is_dir = true; entry_name = codes "43"; files = unknown_files }
    ∷ record { is_dir = true; entry_name = codes "net"; files = unknown_files }
    ∷ []

entries-IsReadable : All IsReadable entries
unfolding stoi listed_uid
entries-IsReadable = (
  λ h. ((pos 42, refl), (negsuc 0, refl)),
  (λ h. ((pos 43, refl), (negsuc 0, refl)), (λ h. absurd (ground (arith, h)), tt)),
)

get_running_process_info_lem_example :
    (infos : List ProcessInfo) × (get_running_process_info entries ≡ some infos)
    × (map (λ info. info.pid) infos ≡ pos 42 ∷ [])
unfolding stoi
get_running_process_info_lem_example = get_running_process_info_lem entries entries-IsReadable
