-- ===== src/Tests/Texts.antt =====
-- Scopes, filters and chunks at concrete values.
use yaadien.Prelude.{◌≡◌, ◌≤◌, ◌<◌, refl, some, List, ◌++◌, arith, codes, length, All}
use yaadien.Model.{Text, ok}
use yaadien.Filter.{escape_sql_string, text, other}
use yaadien.Filter.Escape.{read_literal, read_literal-escape}
use yaadien.Chunking.{split_chunks}
use yaadien.Chunking.Windows.{rejoin, split_chunks-rejoin}

abbrev quoted_name : Text
quoted_name = codes "O'Brien' OR '1'='1"

abbrev more_sql : Text
more_sql = codes " AND deleted_at IS NULL"

read_literal-escape_example :
    (read_literal (escape_sql_string (text quoted_name) ++ more_sql) ≡ some (quoted_name, more_sql))
    × (read_literal (escape_sql_string (other quoted_name) ++ more_sql)
        ≡ some (quoted_name, more_sql))
read_literal-escape_example = read_literal-escape quoted_name more_sql refl

split_chunks-rejoin_example :
    (cs : List Text) × (split_chunks more_sql 8 3 ≡ ok cs)
    × (rejoin 3 cs ≡ more_sql)
    × All (λ c. length c ≤ 8) cs
    × (0 < length cs)
split_chunks-rejoin_example = split_chunks-rejoin more_sql 8 3 (omega arith)
