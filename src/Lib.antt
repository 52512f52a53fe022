-- ===== src/Lib.antt =====
-- Forgepost: a verification library for the parts of the server that decide.
--
-- Forgepost is a blog host that can test blocks of an article against each other. An article is a
-- list of blocks; each block points at an immutable version of its content. Saving an article
-- merges the parsed blocks into the stored ones. An experiment overlays a block with variants; each
-- visitor gets one of them, by a hash. Events count impressions and conversions, and a worker
-- decides when a variant wins, which points the block at the variant's version.
--
-- Prelude        lists, options, integers and tests over the native numbers
-- Text, Json     texts as lists of code points, and JSON values (of the serde_json crate)
-- Float          the interface of f64: its operations are parameters, and a theorem that needs a
--                law of them takes it as a hypothesis; Float.Hundredths runs the definitions
-- Content        crates/content/src/lib.rs: kinds, blocks, versions, documents
--   .Video       crates/content/src/markdown.rs: what a video block is
--   .Diff        crates/content/src/diff.rs: lcs_matches; Lcs has the proofs
--   .Merge       crates/content/src/diff.rs: merge_blocks; Shape, Contents, Identity and Kept have
--                the proofs
--   .Markdown    crates/content/src/markdown.rs: the parser and the renderer. Escape and Url are
--                html_escape and is_safe_url (Url.Escaped, Url.Browser have proofs), Markup is the
--                markup that an article may show, Inline the inline markers (Spans, Safe have the
--                proofs), Render render_html (Elements, Media and Safe have the proofs), Search the
--                text for the search, Outcome the results of parsing, Lines, Image, VideoUrl and
--                Html (Tag, Img, Iframe) what a line or a tag is, and Parse parse_markdown;
--                Image.Ends, Html.Attributes, Html.Scan, Html.Ends, Parse.Ends, Parse.Videos and
--                Parse.Typed have the proofs
-- Analytics.RateLimiter   crates/analytics/src/lib.rs: RateLimiter; Budget has the proofs
-- Analytics.Reach         crates/analytics/src/lib.rs: block_stats; Laws has the proofs
-- Analytics.Traffic       crates/analytics/src/lib.rs: bucket_traffic_sources; Totals has the proofs
-- Experiments    crates/experiments/src/lib.rs: types
--   .Numerics, .Engine    crates/experiments/src/lib.rs: the report and the recommendation;
--                Numerics.Quantile, Engine.Totality, Engine.Best, Engine.Decision,
--                Engine.Samples and Engine.Support have the proofs
--   .Record      crates/domain/src/model.rs: the rows of the experiment tables
--   .Assignment  crates/experiments/src/lib.rs and crates/application/src/experiments.rs: who gets
--                which variant; Laws has the proofs
--   .Tables      crates/infrastructure/src/sqlite.rs: the experiment tables and their rows
--   .Store       crates/infrastructure/src/sqlite.rs: the operations of ExperimentRepo, with
--                create_experiment in Create; Sound, Invariants, History and Atomicity have the
--                proofs
--   .Decide      crates/application/src/experiments.rs: decisions, on the store; Control,
--                Overflow and Promotion have the proofs
-- Events         crates/server/src/routes.rs: EventRequest and parse_event
--   .Table       crates/infrastructure/src/sqlite.rs: the table of events and the counts on it
--   .Endpoint    crates/server/src/routes.rs: record_event; Once and Attribution have the proofs
-- Search         crates/infrastructure/src/sqlite.rs: fts_match_expr and escape_snippet; Query and
--                Snippet have the proofs
-- Slug           crates/infrastructure/src/sqlite.rs: slugify; Laws has the proofs
-- Recommender    crates/server/src/recommender.rs; Sorting and Ranking have the proofs
--
-- The state of the limiter is its map of windows; that of the experiments is the record Db of
-- tables, which each operation takes and returns with its result. A u64 or usize is a natural
-- number and an i64 an integer: sums of counts are not bounded, where the source saturates or
-- casts the model writes it out, and `none` is the result of a checked subtraction that overflows
-- and of an index out of range; the differences in beta_cdf are not checked, as the engine gives
-- it parameters of 1 at least, which keep them from going below 0. Loops are structural recursions
-- on the lists or counts that the source iterates over. The loops of the Markdown parser and
-- renderer have a number of rounds, and more are never needed: as many as a source has lines, as
-- an inline text or a paragraph of raw tags has characters, and one more than that for the images
-- of a line and the attributes of a tag. A slice that cuts a character is a panic, a result of its
-- own. The loop of escape_snippet has one more round than its text has characters, and each takes
-- one. Two other loops have a bound of their own: trim_start_matches has as many rounds as the
-- text has characters, of which each round takes one at least, and log_gamma reflects once, which
-- leads past a half. The random ids, the clock, the SHA-256 digest and, for the slugs, the tables
-- of Unicode are parameters.
--
-- Not modelled: the previews of blocks, the other tables, the services, the other routes, pages,
-- backups and media files; failures of the disk and of the database connection; logging.
pub mod Prelude
pub mod Text
pub mod Json
pub mod Content
pub mod Analytics
pub mod Float
pub mod Experiments
pub mod Recommender
pub mod Events
pub mod Search
pub mod Slug
