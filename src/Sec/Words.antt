-- ===== src/Sec/Words.antt =====
-- The constant tables of tools/fetch_sec_edgar_actions.py.
use corporate_actions.Prelude.{ℕ, String, List, [], ◌∷◌}

-- MONTHS
abbrev pub months : List (String × ℕ)
months =
    ("january", 1)
    ∷ ("february", 2)
    ∷ ("march", 3)
    ∷ ("april", 4)
    ∷ ("may", 5)
    ∷ ("june", 6)
    ∷ ("july", 7)
    ∷ ("august", 8)
    ∷ ("september", 9)
    ∷ ("october", 10)
    ∷ ("november", 11)
    ∷ ("december", 12)
    ∷ ("jan", 1)
    ∷ ("feb", 2)
    ∷ ("mar", 3)
    ∷ ("apr", 4)
    ∷ ("jun", 6)
    ∷ ("jul", 7)
    ∷ ("aug", 8)
    ∷ ("sep", 9)
    ∷ ("sept", 9)
    ∷ ("oct", 10)
    ∷ ("nov", 11)
    ∷ ("dec", 12)
    ∷ []

-- COMMON_ENGLISH_WORDS
abbrev pub common_english_words : List String
common_english_words =
    "AN" ∷ "AS" ∷ "AT" ∷ "BE" ∷ "BY" ∷ "DO" ∷ "GO" ∷ "HE" ∷ "IF" ∷ "IN" ∷ "IS" ∷ "IT" ∷ "ME" ∷ "MY"
    ∷ "NO" ∷ "OF" ∷ "ON" ∷ "OR" ∷ "SO" ∷ "TO" ∷ "UP" ∷ "US" ∷ "WE" ∷ "ALL" ∷ "AND" ∷ "ANY" ∷ "ARE"
    ∷ "BOY" ∷ "BUT" ∷ "CAN" ∷ "DAY" ∷ "DID" ∷ "FOR" ∷ "GET" ∷ "GOD" ∷ "HAD" ∷ "HAS" ∷ "HER" ∷ "HIM"
    ∷ "HIS" ∷ "HOW" ∷ "ITS" ∷ "LET" ∷ "MAN" ∷ "MAY" ∷ "NEW" ∷ "NOT" ∷ "NOW" ∷ "OLD" ∷ "ONE" ∷ "OUT"
    ∷ "OWN" ∷ "PUT" ∷ "SAY" ∷ "SEE" ∷ "SHE" ∷ "THE" ∷ "TOO" ∷ "TWO" ∷ "USE" ∷ "WAS" ∷ "WAY" ∷ "WHO"
    ∷ "WHY" ∷ "YES" ∷ "YET" ∷ "YOU" ∷ "ALSO" ∷ "BEEN" ∷ "BOTH" ∷ "CAME" ∷ "EACH" ∷ "EVEN" ∷ "EVER"
    ∷ "FROM" ∷ "GAVE" ∷ "HAND" ∷ "HAVE" ∷ "HERE" ∷ "HIGH" ∷ "INTO" ∷ "JUST" ∷ "KEEP" ∷ "KIND"
    ∷ "KNOW" ∷ "LAST" ∷ "LATE" ∷ "LESS" ∷ "LIKE" ∷ "LONG" ∷ "MADE" ∷ "MAKE" ∷ "MANY" ∷ "MORE"
    ∷ "MOST" ∷ "MUCH" ∷ "MUST" ∷ "NEAR" ∷ "NEED" ∷ "NEXT" ∷ "ONCE" ∷ "ONLY" ∷ "OVER" ∷ "PART"
    ∷ "SAID" ∷ "SAME" ∷ "SOME" ∷ "SUCH" ∷ "SURE" ∷ "TAKE" ∷ "THAN" ∷ "THAT" ∷ "THEM" ∷ "THEN"
    ∷ "THEY" ∷ "THIS" ∷ "TIME" ∷ "UPON" ∷ "VERY" ∷ "WELL" ∷ "WENT" ∷ "WERE" ∷ "WHAT" ∷ "WHEN"
    ∷ "WITH" ∷ "WORK" ∷ "YOUR" ∷ "ABOUT" ∷ "AFTER" ∷ "AGAIN" ∷ "BEING" ∷ "COULD" ∷ "EVERY" ∷ "FIRST"
    ∷ "FOUND" ∷ "GOING" ∷ "GREAT" ∷ "MIGHT" ∷ "NEVER" ∷ "OTHER" ∷ "PLACE" ∷ "RIGHT" ∷ "SHALL"
    ∷ "SINCE" ∷ "SMALL" ∷ "STILL" ∷ "THEIR" ∷ "THERE" ∷ "THESE" ∷ "THOSE" ∷ "THREE" ∷ "UNDER"
    ∷ "UNTIL" ∷ "WHICH" ∷ "WHILE" ∷ "WHERE" ∷ "WOULD" ∷ "WRITE" ∷ []
