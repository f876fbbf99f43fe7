-- ===== src/Workspace/Documents/Tests.antt =====
-- The theorems of this part on a document that is put, put again, refused, deleted and cleaned up.
use oncall_agent.Prelude.{
  true, none, some, [], ◌++◌, Text, codes, ◌≡◌, refl, text_beq, text_lt, text_eq, length, leb, ◌&&◌,
  keys, Distinct, lookup, trim_space, trim_left, trim_right, is_space, has_prefix, decimal,
  decimal_from,
}
use oncall_agent.Retrieval.Anchor.{Unicode, bigrams}
use oncall_agent.Retrieval.Index.{
  tokenize, scan_runes, scan_rune, flush_latin, flush_han, new_doc, term_counts, put_doc, retract,
  take_back, add_terms, upsert, remove,
}
use oncall_agent.Retrieval.Chunks.{
  chunk_markdown, split_lines, add_rune, join_lines, count_signs, heading_level, parse_heading,
  doc_title, is_section, put_chunk, flush, cut_line, cut_lines, or_whole,
}
use oncall_agent.Retrieval.Versions.{
  VersionChunk, restore_chunks, active_of, activate_versions, is_active, is_current, eligible,
  valid_space, chunk_id, index_chunks, indexed_with, index_version, drop_chunks, delete_version,
}
use oncall_agent.Workspace.State.{OutboxRow, Result, ok, err, conflict, on}
use oncall_agent.Workspace.Tables.{stable_id}
use oncall_agent.Workspace.Dispatch.{sent_row, update_row}
use oncall_agent.Workspace.Admission.Manual.{find_result}
use oncall_agent.Workspace.Documents.{
  VersionStatus, IndexStatus, Document, DocumentRow, Version, Shelf, Knowledge, load_document,
  load_version, place, sorted, current, if_served, version_of, projected, add_served, collect,
  restore_projection,
}
use oncall_agent.Workspace.Documents.Requests.{
  Request, content_ok, draft_of, prepare, is_published, earlier_put, replay, title_taken,
  new_document, insert_document, same_content, check_document, find_document, is_unchanged,
  unchanged,
}
use oncall_agent.Workspace.Documents.Put.{
  remember, answer, version_id, staged, update_version, version_chunks, put_chunks, supersede,
  published_document, save_titled, published_version, publish, restored, stage, publish_indexed,
  put_version, keep_or_put, put_found, replay_or_put, put_document,
}
use oncall_agent.Workspace.Documents.Remove.{
  update_document, names, deleted, cleanup_id, cleanup_row, put_cleanup, mark_deleted,
  check_expected, delete_document, serves, clean_projection, settle_cleanup, clean_up, cleanup_of,
  dispatch_cleanup, clean_up_with,
}
use oncall_agent.Workspace.Documents.Ordered.{IsOrdered}
use oncall_agent.Workspace.Documents.Mirrored.{Mirrors}
use oncall_agent.Workspace.Documents.Found.{Puts, Fails}
use oncall_agent.Workspace.Documents.Settled.{put_document-Puts, put_document-Fails}
use oncall_agent.Workspace.Documents.Removed.{Deletes, delete_document-Deletes}
use oncall_agent.Workspace.Documents.Cleaned.{eligible-serves}
use oncall_agent.Workspace.Documents.Discharged.{Finishes, delete_document-cleanup}

program : Unit {0}
unfolding text_beq text_lt trim_space trim_left trim_right is_space has_prefix decimal decimal_from
    bigrams tokenize scan_runes scan_rune flush_latin flush_han new_doc term_counts put_doc retract
    take_back add_terms upsert remove chunk_markdown split_lines add_rune join_lines count_signs
    heading_level parse_heading doc_title is_section put_chunk flush cut_line cut_lines or_whole
    restore_chunks active_of activate_versions is_active is_current eligible valid_space chunk_id
    index_chunks indexed_with index_version drop_chunks delete_version stable_id sent_row update_row
    find_result load_document load_version place sorted current if_served version_of projected
    add_served collect restore_projection content_ok draft_of prepare is_published earlier_put
    replay title_taken new_document insert_document same_content check_document find_document
    is_unchanged unchanged remember answer version_id staged update_version version_chunks
    put_chunks supersede published_document save_titled published_version publish on restored stage
    publish_indexed put_version keep_or_put put_found replay_or_put put_document update_document
    names deleted cleanup_id cleanup_row put_cleanup mark_deleted check_expected delete_document
    serves clean_projection settle_cleanup clean_up cleanup_of dispatch_cleanup clean_up_with
program = tt

abbrev ascii : Unicode
ascii = record {
  to_lower = λ c. c;
  is_letter = λ c. leb 97 c && leb c 122;
  is_digit = λ c. leb 48 c && leb c 57;
  is_han = λ c. leb 0x4e00 c && leb c 0x9fff;
}

abbrev knowledge : Knowledge
knowledge = record {
  formats = record {
    env = record {
      hash = λ s. s;
      stamp = codes "t1";
      later = λ n. codes "t2";
      since_ms = λ s. none;
    };
    json = λ o. o.name;
    json_labels = λ ls. [];
    parse_time = λ s. some (length s);
    print_time = λ t. codes "t";
    five_minutes = codes "t0";
    to_lower = λ s. s;
    byte_length = length;
  };
  json_strings = λ ss. [];
  backend = record { unicode = ascii; md5 = λ s. s; embed = λ s. some 4; takes = λ id. true };
  space_id = codes "sp";
  has_rag = true;
  source_ready = true;
  deletes = λ v. true;
}

abbrev empty : Shelf
empty = record {
  db = record {
    runs = [];
    events = [];
    outbox = [];
    citations = [];
    evidence = [];
    retrievals = [];
    retrieval_hits = [];
  };
  documents = [];
  versions = [];
  chunks = [];
  results = [];
  rag = record {
    bm = record { docs = []; df = []; tot_len = 0 };
    chunks = [];
    active = [];
    versioned = true;
    space_id = codes "sp";
    dimension = 4;
  };
}

abbrev disk : Request
disk = record {
  id = codes "d1";
  title = codes " disk ";
  content = codes "## df\nfull";
  source = codes "upload";
  environment = [];
  expected = [];
  key = [];
}

abbrev shelf : Shelf
shelf = (put_document knowledge disk empty).0

abbrev none_made : Document × Version
none_made = (
  record {
    id = [];
    title = [];
    source_kind = [];
    environment = [];
    active_version_id = none;
    deleted_at = none;
    index_status = IndexStatus.pending;
  },
  record {
    id = [];
    document_id = [];
    content = [];
    content_sha256 = [];
    created_at = [];
    status = VersionStatus.staging;
    index_status = IndexStatus.pending;
    space_id = [];
    chunks = [];
  },
)

abbrev made_by : Result (Document × Version) → Document × Version
made_by (err e) = none_made
made_by (ok made) = made

abbrev made : Document × Version
made = made_by (put_document knowledge disk empty).1

IsOrdered-empty : IsOrdered empty
IsOrdered-empty = record { keyed = record { distinct = tt; ids = tt }; filed = tt }

put : put_document knowledge disk empty ≡ (shelf, ok (made.0, made.1))
unfolding program
put = refl

put_document-Puts_example : Puts knowledge (draft_of knowledge disk) empty shelf made.0 made.1
put_document-Puts_example =
    put_document-Puts knowledge disk empty shelf made.0 made.1 IsOrdered-empty put

abbrev version : Text
version = made.1.id

abbrev cid : Text
cid = codes "d1#" ++ version ++ codes "#0"

served : eligible shelf.rag cid (codes "upload") ≡ true
unfolding program
served = refl

-- Other content without the expected version.
abbrev other : Request
other = record disk { content = codes "new" }

refused : put_document knowledge other shelf ≡ (shelf, err conflict)
unfolding program
refused = refl

ordered : IsOrdered shelf
ordered = (put_document-Puts knowledge disk empty shelf made.0 made.1 IsOrdered-empty put).ordered

put_document-Fails_example : Fails shelf shelf conflict
put_document-Fails_example = put_document-Fails knowledge other shelf shelf conflict ordered refused

mirrored : Mirrors knowledge shelf
mirrored = (put_document-Puts knowledge disk empty shelf made.0 made.1 IsOrdered-empty put).mirrors

abbrev indexed : VersionChunk
indexed = record {
  id = cid;
  doc_id = codes "d1";
  version_id = version;
  title = codes "disk";
  snippet = codes "## df\nfull";
  source = codes "upload";
  space_id = codes "sp";
  environment = codes "unknown";
}

known : lookup cid shelf.rag.chunks ≡ some indexed
unfolding program
known = refl

eligible-serves_example :
    (row : DocumentRow) × (lookup (codes "d1") shelf.documents ≡ some row)
    × (serves row.document version ≡ true)
eligible-serves_example =
    eligible-serves knowledge shelf cid (codes "upload") indexed ordered mirrored known served

abbrev without : Shelf
without = (delete_document knowledge (codes "d1") version shelf).0

abbrev gone : Document
gone = deleted (codes "t1") made.0

removed : delete_document knowledge (codes "d1") version shelf ≡ (without, ok gone)
unfolding program
removed = refl

delete_document-Deletes_example : Deletes knowledge (codes "d1") version shelf without gone
delete_document-Deletes_example =
    delete_document-Deletes knowledge (codes "d1") version shelf without gone ordered removed

abbrev due : OutboxRow
due = cleanup_row knowledge.formats.env (codes "d1") version

keyed_chunks : Distinct (keys without.rag.chunks)
unfolding program
keyed_chunks = (refl, tt)

delete_document-cleanup_example :
    (w : Shelf) × (dispatch_cleanup knowledge (codes "c1") due without ≡ ok w)
    × Finishes knowledge (codes "d1") version (codes "c1") without w
delete_document-cleanup_example =
    delete_document-cleanup knowledge (codes "d1") version (codes "c1") shelf without gone ordered
      (unfold text_beq in refl) keyed_chunks refl refl removed

abbrev cleaned : Shelf
cleaned = after (dispatch_cleanup knowledge (codes "c1") due without)
  where
    after : Result Shelf → Shelf
    after (err e) = empty
    after (ok w) = w
