-- ===== src/Lib.antt =====
-- The corporate actions registry: actions.json holds splits, dividends and other events of
-- instruments, tools/ derives and checks its fields, and wrappers/python serves it.
--
-- The parts, and how they meet:
--   Model           an entry of the `actions` array (wrappers/python/corporate_actions_registry/
--                   models.py), which every other part reads
--   Floats          Python's numbers, ints and floats, as an interface
--   Calendar        datetime.date, as far as tools/validate.py uses it
--   Ratio           the ratio texts: RATIO_RE and parse_ratio (tools/derive_impacts.py), and the
--                   expression of validate_arithmetic (tools/validate.py)
--   Validate        the layers of tools/validate.py: Temporal (validate_temporal), Unique
--                   (validate_uniqueness), Semantic (validate_semantic_uniqueness), Arithmetic
--                   (validate_arithmetic), References (validate_cross_reference,
--                   validate_provenance, validate_redistribution), ActionId
--                   (validate_action_id_format), Load (the loaders of the external registries and
--                   build_ticker_isin_index), and Run, the loop of main and its exit code
--   Merge           merge, fuzzy_key and reject_key of tools/merge_fetched.py, which asks the
--                   semantic layer about each candidate; load_reject_set and main in Merge.Run
--   Impacts         derive_impact and main of tools/derive_impacts.py
--   Redistribution  redistribution_for and, in Run, main of tools/derive_redistribution.py, whose
--                   mapping the validator's layer imports
--   Rewrite         build_canonical_id and rewrite of tools/rewrite_action_ids.py
--   Limiter         TokenBucket of tools/rate_limit.py, which both fetchers take tokens from
--   Fetch           what the mains of the two fetchers end with: deduplication, sorting, exit code
--   Yahoo           tools/fetch_yahoo_actions.py: load_instruments and timestamp_to_iso; the
--                   builders in Yahoo.Build, _fetch_events in Yahoo.Attempts, main in Yahoo.Run
--   Sec             tools/fetch_sec_edgar_actions.py: load_instruments, the extraction and the
--                   builders; fetch_all_filings and main in Sec.Filings, SECClient._get in
--                   Sec.Client, the constant tables in Sec.Words
--   Build           tools/build.py: validate_actions_data and flatten_action; render_sql in
--                   Build.Sql, main in Build.Run
--   Registry        the constructor, indexes and lookups of wrappers/python/
--                   corporate_actions_registry/registry.py; by_date_range, known_as_of and
--                   by_ticker in Registry.Queries, adjust_prices in Registry.Prices
--   Tests           the theorems and the program on sample data
-- A child module of a part that holds theorems is named for what they say.
--
-- How the code corresponds to the model:
--   - An action is a record with an optional field for each key. A missing key and null are both
--     `none`, as `.get` gives them; the arithmetic layer's KeyError on a missing action_type is
--     modelled. A null where the code does tell it from a missing key (the provenance of
--     validate_provenance, the isin and action_type of the merge keys) is left out, since the
--     schema admits none there.
--   - An error message is a constructor, mostly without the values that it prints; which errors are
--     found, and in which order, is kept. Printing is left out.
--   - Functions that raise return an Option or a result with an error; an exit code is a number.
--   - Mutation of the list of actions is a new list. The lookups of the Python registry return deep
--     copies, so the values are all that a caller sees.
--   - Texts are compared by code point; digits, letters and blanks in the expressions are the
--     ASCII ones.
--   - Loops recurse on their lists. The only fuel is that of `show`, which writes a number in
--     decimal digits: n + 1 steps, and a number has at most that many digits. A loop over range(3)
--     counts the attempts that are left; the loop of `acquire` recurses on the readings of the
--     clock that its rounds make.
--   - Threads that share a token bucket are a sequence of steps, one for each region under the lock.
--   - The disk of a build is a dictionary from paths to texts and a list of directories, and the cache
--     of the SEC client a dictionary from URLs to contents.
--   - The numbers of Floats are ints and floats. The OverflowError of a quotient or of float() of an
--     int beyond the floats is an outcome in derive_impact, in the keys of the merge and in
--     adjust_prices; elsewhere amounts are in the range of the floats. Where a NaN, which differs from
--     itself, would matter, the theorem says that there is none.
--   - The request loop of the SEC client leaves out an OSError of the write to its cache.
--
-- Parameters, since their code lies outside the repository: the operations on numbers (Floats),
-- with laws of comparison and order where a theorem says so, which hold of the finite numbers; the
-- messages of the jsonschema package for an action and the three external registries
-- (Validate.Run.Setup); whether the semantic layer could be imported (Merge) and whether a write
-- succeeds (Impacts, Redistribution.Run, Rewrite, Merge.Run, the fetchers, Build.Run).
-- The laws of arithmetic that the token bucket needs are the records Limiter.Bounds.Arithmetic and
-- Limiter.Returns.Monotone. Which directories can be made is a parameter of Build.Run. What
-- yfinance answers, and what Fraction.limit_denominator and the random part of a delay give, are
-- parameters of Yahoo, and that dividing the two parts of such a fraction does not overflow is a
-- hypothesis where it matters; what the regular expressions find in a filing, and what requests are answered
-- with and decoded to, of Sec; the text of a number, and the texts of the json and csv modules, of
-- Build.
--
-- Not modelled: the validation of the whole document against the schema before the loop of
-- tools/validate.py, reading and writing files, command lines, the second copies of the renderers in
-- tools/build.py (build_dist, build_csv, build_sql), the patterns and strip_html of the SEC fetcher,
-- the checks of documents and versions, the scripts, and the wrappers in other languages.
pub mod Prelude
pub mod Floats
pub mod Model
pub mod Calendar
pub mod Redistribution
pub mod Validate
pub mod Ratio
pub mod Merge
pub mod Impacts
pub mod Registry
pub mod Rewrite
pub mod Limiter
pub mod Fetch
pub mod Yahoo
pub mod Build
pub mod Sec
pub mod Tests
