-- ===== src/Examples/Texts.antt =====
-- The theorems on strings at short strings.
use xinu.Base.{ℕ, ◌+◌, ◌%◌, ◌<◌, ◌≡◌, ◌-ℤ◌, pos, refl, some, ◌==◌, if◌then◌else◌, arith}
use xinu.Checksum.{net_chksum}
use xinu.Checksum.Sum.{words, net_chksum-words}
use xinu.Strings.{Bytes, strlen, strcmp, strlcpy}
use xinu.Strings.Copy.{Copied, strlcpy-Copied}
use xinu.Strings.Length.{Ends, Differ, strlen-Ends, strcmp-Differ}

-- "abc" and "abd", with zeros behind.
abbrev abc : Bytes
abc i = if i == 0 then 97 else if i == 1 then 98 else if i == 2 then 99 else 0

abbrev abd : Bytes
abd i = if i == 0 then 97 else if i == 1 then 98 else if i == 2 then 100 else 0

abc-Ends : Ends abc 3
abc-Ends = record { terminator = refl; before = λ i h. ground arith }

abc-Differ : Differ abc abd 2
abc-Differ = record { same = λ i h. ground arith; inside = λ i h. ground arith; stop = refl }

strlen-Ends_example : strlen 10 abc ≡ some 3
strlen-Ends_example = strlen-Ends 3 10 abc abc-Ends (omega arith)

strcmp-Differ_example : strcmp 10 abc abd ≡ some (pos 99 -ℤ pos 100)
strcmp-Differ_example = strcmp-Differ 2 10 abc abd abc-Differ (omega arith)

strlcpy-Copied_example :
    (dest' : Bytes) × (strlcpy 10 abd abc 3 ≡ some (3, dest')) × Copied abd abc 3 3 dest'
strlcpy-Copied_example = strlcpy-Copied 3 10 abd abc 3 abc-Ends (omega arith) (omega arith)

net_chksum-words_example :
    (c : ℕ) × (net_chksum abc 3 ≡ some c) × (c < 65536) × ((words 3 0 abc + c) % 65535 ≡ 0)
net_chksum-words_example = net_chksum-words abc 3 (λ j. ground arith) (omega arith)
