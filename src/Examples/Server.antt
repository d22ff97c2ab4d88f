-- ===== src/Examples/Server.antt =====
-- Requests to a server over a storage in memory, and the theorems on its answers.
use agidb_on_chain.Base.{
  ◌≡◌, ◌≢◌, ◌⊎◌, refl, true, false, some, [], ◌∷◌, ◌++◌, Bytes, codes, beq, ne_of_beq, length,
  arith,
}
use agidb_on_chain.Go.Maps.{lookup}
use agidb_on_chain.Go.Slices.{nil_slice}
use agidb_on_chain.Go.Strings.{unescape, split, cut, trim_prefix, parse_digits, parse_uint}
use agidb_on_chain.Engine.Batches.{new_transaction}
use agidb_on_chain.Engine.Effects.{put_ops}
use agidb_on_chain.Engine.Status.{Counts}
use agidb_on_chain.Engine.Replay.{IsReplay}
use agidb_on_chain.Server.{
  Request, Server, RequestJson, CommitRequest, Moment, to, at_verify, verified_content, clean_parts,
  is_clean, segments, match_segments, match_name, match_below, is_canonical, route, refuses,
  status_handler, tx_answer, commit_request, decoded_request, tx_handler, query_height,
  state_answer, state_handler, block_answer, parsed_height, block_handler, verify_answer,
  verify_handler, handle, auth, dispatch, serve,
}
use agidb_on_chain.Server.Access.{Denied, IsUntouched, IsCommit, serve-IsCommit, serve_unauthorized}
use agidb_on_chain.Server.Visits.{
  Visited, started, then_serve, Visited-IsReplay, serve-Visited, transaction_of,
}
use agidb_on_chain.Server.Commits.{Answered, serve-Answered}
use agidb_on_chain.Server.Progress.{IsCreated, serve-IsCreated}
use agidb_on_chain.Engine.Progress.{IsWritable}
use agidb_on_chain.Engine.{Engine}
use agidb_on_chain.Model.{Block}
use agidb_on_chain.Examples.Toys.{toy_sha256, toy_json, memory_store, Memory, no_files, put}
use agidb_on_chain.Examples.Sessions.{program, fresh}

instance abbrev pub memory_counts : Counts Memory
memory_counts = record {
  segment_count = λ f. 1;
  storage_bytes = λ f. length f.blocks;
  snapshot_count = λ f. 0;
}

-- every body asks for the value of its own bytes under `a`
instance abbrev pub toy_requests : RequestJson
toy_requests = record {
  decode = λ body. some record {
    sender = codes "me";
    nonce = 0;
    ops = put (codes "a") body ∷ [];
    payload = nil_slice;
  };
}

abbrev pub now : Moment
now = record { id = codes "t"; time = 5; clock = 6; elapsed = 7 }

abbrev pub ask : Bytes → Bytes → Bytes → Request
ask method path height = record {
  method = method;
  request_uri = path;
  escaped_path = path;
  path = path;
  authorization = codes "Bearer key";
  height = height;
  body = codes "1";
  broken = false;
}

abbrev locked : Server Memory
locked = record { engine = fresh; token = codes "key" }

abbrev posting : Request
posting = ask (codes "POST") (codes "/v1/tx") []

abbrev pub posted : Server Memory
posted = (serve now locked posting).0

abbrev stranger : Request
stranger = record posting { authorization = codes "Bearer kex" }

unfoldable pub serving : Unit {0}
unfolding program serve dispatch auth handle refuses route segments unescape match_segments
    match_name match_below is_canonical is_clean clean_parts split status_handler tx_answer
    commit_request decoded_request tx_handler query_height state_answer state_handler block_answer
    parsed_height block_handler verify_answer verify_handler cut trim_prefix parse_digits parse_uint
    new_transaction
serving = tt

posted_code : (serve now locked posting).1.code ≡ 201
unfolding serving
posted_code = refl

pub posted_blocks : length posted.engine.blocks ≡ 1
unfolding serving
posted_blocks = refl

again_code : (serve now posted posting).1.code ≡ 400
unfolding serving
again_code = refl

stranger_code : (serve now locked stranger).1.code ≡ 401
unfolding serving
stranger_code = refl

unclean_code : (serve now locked (ask (codes "GET") (codes "/v1/./status") [])).1.code ≡ 301
unfolding serving
unclean_code = refl

-- %74 is t
escaped_code : (serve now locked (ask (codes "POST") (codes "/v1/%74x") [])).1.code ≡ 201
unfolding serving
escaped_code = refl

below_code : (serve now locked (ask (codes "GET") (codes "/v1/status/") [])).1.code ≡ 404
unfolding serving
below_code = refl

star_code : (serve now locked (ask (codes "OPTIONS") (codes "*") [])).1.code ≡ 400
unfolding serving
star_code = refl

slashless_code : (serve now locked (ask (codes "GET") (codes "/v1/s%74ate") [])).1.code ≡ 301
unfolding serving
slashless_code = refl

posted-Visited : Visited posted
unfolding serving
posted-Visited = then_serve locked now posting (started no_files true fresh (codes "key") refl)

pub posted-IsReplay : IsReplay posted.engine
posted-IsReplay = Visited-IsReplay posted posted-Visited

serve-IsCommit_example :
    IsUntouched locked (serve now locked posting)
    ⊎ IsCommit now locked posting (serve now locked posting)
serve-IsCommit_example = serve-IsCommit now locked posting

other_key : beq stranger.authorization (codes "Bearer " ++ locked.token) ≡ false
unfolding program
other_key = refl

serve_unauthorized_example :
    ((serve now locked stranger).0 ≡ locked) × Denied stranger (serve now locked stranger).1
serve_unauthorized_example =
    serve_unauthorized now locked stranger (λ e. cc) (ne_of_beq _ _ other_key)

abbrev verifying : Request
verifying = ask (codes "GET") (codes "/v1/verify") []

verifying_found : route verifying ≡ to at_verify
unfolding serving
verifying_found = refl

verifying_held : refuses posted.token verifying ≡ false
unfolding serving
verifying_held = refl

serve-Visited_example :
    serve now posted verifying ≡ (posted, record { code = 200; content = verified_content 7 })
serve-Visited_example =
    serve-Visited now posted verifying posted-Visited verifying_held verifying_found

posting-IsCommit : IsCommit now locked posting (serve now locked posting)
unfolding serving
posting-IsCommit = record {
  admitted = refl;
  routed = refl;
  posted = refl;
  bounded = omega arith;
  whole = refl;
  request = record {
    sender = codes "me";
    nonce = 0;
    ops = put (codes "a") (codes "1") ∷ [];
    payload = nil_slice;
  };
  decoded = refl;
  answered = refl;
}

fresh-IsReplay : IsReplay locked.engine
unfolding program
fresh-IsReplay = refl

serve-Answered_example :
    Answered fresh
      (transaction_of now posting-IsCommit.request)
      ((serve now locked posting).0.engine, (serve now locked posting).1)
serve-Answered_example = serve-Answered now locked posting fresh-IsReplay posting-IsCommit

-- the storage in memory writes every block
memory-IsWritable : (e : Engine Memory) (b : Block) → IsWritable e b
memory-IsWritable e b = record {
  files = _;
  written = record { logged = _; log = refl; append = refl };
  cleared = refl;
}

abbrev value_post : CommitRequest
value_post = record {
  sender = codes "me";
  nonce = 0;
  ops = put (codes "a") (codes "1") ∷ [];
  payload = nil_slice;
}

posting_changes :
    lookup (put_ops locked.engine.state value_post.ops) (codes "a")
    ≢ lookup locked.engine.state (codes "a")
unfolding serving put_ops
posting_changes e = cc

serve-IsCreated_example :
    IsCreated now fresh value_post
      ((serve now locked posting).0.engine, (serve now locked posting).1)
serve-IsCreated_example =
    serve-IsCreated now locked posting value_post (codes "a") fresh-IsReplay
      (λ next kept f. memory-IsWritable fresh _) posting-IsCommit.admitted posting-IsCommit.routed
      refl (omega arith) refl refl (λ e. cc) ((λ e. cc), tt) posting_changes
