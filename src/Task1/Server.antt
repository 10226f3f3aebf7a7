-- ===== src/Task1/Server.antt =====
-- The server's task of task1/src/SocketServer.cpp: it reads a request and answers it.
pub mod Answers
use lab.Prelude.{Bool, true, false, not, if◌then◌else◌, Option, none, some, Bytes, ◌∷◌}
use lab.Prelude.Result.{Result, ok, raised, ◌>>=◌}
use lab.Task1.Link.{
  Link, Fault, socket_exception, disconnected, parse_failure, bad_request, query_failure, undefined,
  no_fuel,
}
use lab.Task1.Package.{recv_package}
use lab.Task1.Respond.{ResultSet, Respond, Request, Codec}
use lab.Task1.OutStream.{handle_proto_buff_send}

-- How a task ends: the answer was sent, an exception ended it (the socket is deleted in both), or
-- it returned before that and leaves the socket open.
pub data TaskEnd (Sock : Type 0) : Type 0 where
  answered : Sock → TaskEnd Sock
  failed : Fault → TaskEnd Sock
  abandoned : Fault → TaskEnd Sock
  stuck : Fault → TaskEnd Sock

-- The end of a task that has not read a request.
abbrev pub unread : {Sock : Type 0} → Fault → TaskEnd Sock
unread socket_exception = failed socket_exception
unread query_failure = failed query_failure
unread disconnected = abandoned disconnected
unread parse_failure = abandoned parse_failure
unread bad_request = abandoned bad_request
unread undefined = stuck undefined
unread no_fuel = stuck no_fuel

abbrev pub parsed_request : Option Request → Result Fault Request
parsed_request none = raised parse_failure
parsed_request (some request) =
    if not request.is_query
    then raised bad_request
    else if not request.is_sql
    then raised bad_request
    else ok request

module _ {Time : Type 0} (k : Link) (requests : Codec Request)
    (responds : Codec (Respond Time)) where
  open k use {Sock}

  unfoldable pub read_request : Sock → Result Fault (Request × Sock)
  read_request s = do
    ((header, body), s') ← recv_package k s
    request ← parsed_request (requests.parse body)
    ok (request, s')

  -- The manager catches its exceptions, and the socket is deleted whatever became of them.
  abbrev pub answer_end : Result Fault Sock → TaskEnd Sock
  answer_end (ok s) = answered s
  answer_end (raised e) = failed e

  abbrev pub answer :
      (Bytes → Result Fault (Option (ResultSet Time)))
      → Result Fault (Request × Sock)
      → TaskEnd Sock
  answer execute_query (raised e) = unread e
  answer execute_query (ok (request, s)) =
      answer_end (handle_proto_buff_send k responds execute_query request.sqlquery s)

  -- `executeTask`
  unfoldable pub execute_task :
      (Bytes → Result Fault (Option (ResultSet Time))) → Sock → TaskEnd Sock
  execute_task execute_query s = answer execute_query (read_request s)
