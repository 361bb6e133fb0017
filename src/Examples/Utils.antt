-- ===== src/Examples/Utils.antt =====
-- src/utils/TextUtils.cpp and src/utils/FileMemMap.cpp: a text that is split, a file that is mapped.
use neo_group_captcha_bot.Common.{
  ◌<◌, ◌≡◌, refl, ◌++◌, List, [], ◌∷◌, some, Bytes, codes, length, arith,
}
use neo_group_captcha_bot.TextUtils.{split_string}
use neo_group_captcha_bot.TextUtils.Split.{glue, split_string_covers}
use neo_group_captcha_bot.FileMemMap.{FileMemMap, Process, gives, new, map_file_path, destroy}
use neo_group_captcha_bot.FileMemMap.Mapped.{IsMapEnd, map_file_path_lem}
use neo_group_captcha_bot.FileMemMap.Undone.{map_file_path-undone}

split_string_covers_example :
    (parts : List Bytes) × (rest : Bytes) × (split_string (codes "a,bc,") (codes ",") ≡ some parts)
    × (codes "a,bc,," ≡ glue (codes ",") parts ++ rest)
    × (length rest < 1)
split_string_covers_example = split_string_covers (codes "a,bc,") (codes ",") refl refl

-- A separator that overlaps itself: the byte of the text is lost.
overlapping : split_string (codes "a") (codes "aa") ≡ some ([] ∷ [])
unfolding split_string
overlapping = refl

abbrev unmapped : FileMemMap
unmapped = record { address = 0; map_length = 0; length = 0 }

abbrev process : Process
process = record { descriptors = 0 ∷ 1 ∷ 2 ∷ []; mappings = [] }

-- A file of 5000 bytes.
map_file_path_lem_example :
    let r = map_file_path unmapped process 0 (gives 3) (gives 5000) (gives 65536) in
    (r.process.descriptors ≡ 0 ∷ 1 ∷ 2 ∷ []) × IsMapEnd unmapped process 5000 r
map_file_path_lem_example =
    map_file_path_lem unmapped process 0 (gives 3) (gives 5000) (gives 65536) tt tt tt (omega arith)
      (omega arith)

map_file_path-undone_example :
    let r = map_file_path new process 0 (gives 3) (gives 5000) (gives 65536) in
    destroy r.map r.process (gives 0) ≡ process
map_file_path-undone_example =
    map_file_path-undone process 0 (gives 3) (gives 5000) (gives 65536) (λ e. omega (arith, e))
