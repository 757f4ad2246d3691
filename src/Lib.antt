-- ===== src/Lib.antt =====
-- A control plane that runs tasks on the machines of its tenants. A delegate registers with a token
-- of its tenant and receives a certificate and a Redis user; an execution is created for a delegate
-- and sent to its worker as a task; the worker announces it, asks for the workspace, receives it in
-- chunks over a Redis stream, runs, and sends logs, a status and its output back; a dispatcher
-- watches the streams of every execution, answers the requests and stores the output.
--
-- Files and the code that they model:
--   Base: notation, lists, texts, integers and exceptions as values.
--   Platform: what the program only calls (SHA-256, base64, int, UUID), as a parameter.
--   Streams: shared/delegate_protocol/streams.py, the names of streams and key prefixes.
--   Transfer: shared/delegate_protocol/chunked_transfer.py. Transfer.Sender is ChunkSender, whose
--     send_bytes is the list of its XADD calls; Transfer.Receiver is what one message does in
--     ChunkReceiver.receive_once, and Transfer.Loop its polling loop over the replies and clock
--     readings that it is given.
--   Archive: the archives of the same file. A directory is a tree of files and directories, whose
--     members are the names and contents that zip_directory_to_bytes writes; extract_zip_bytes puts
--     the members of an archive into a tree. The ZIP format is a parameter, with the law that what
--     it accepts is read back.
--   Workspace: zip_directory_to_bytes and zip_single_file_to_bytes of the same file on the file
--     system of the control plane, which is a parameter.
--   Models: control_plane/delegates/models.py, the rows, and Models.Tables the queries on them.
--   Dispatcher: control_plane/delegates/management/commands/stream_dispatcher.py. Requests holds
--     _handle_data_request, _handle_log and _handle_status, Output _handle_output_message, Watch
--     watch_execution, Announcements one message of the global stream, Main the loop of
--     Command.handle; Lifecycle is the abstract machine that a watcher refines. The handlers run
--     in a state and exception monad over the tables, the XADD and DEL calls and the files
--     (Dispatcher.World).
--   Acl: control_plane/delegates/redis_acl.py; the Redis server's table of users is a parameter
--     with the documented effect of ACL SETUSER, DELUSER and USERS.
--   Files: a directory of files by name, and a state and exception monad on it.
--   Ca: control_plane/delegates/ca.py; cryptography is a parameter. Ca itself holds what sign_csr
--     builds from the root CA, Ca.Issue the files of CA_DIR and the command init_ca of
--     control_plane/delegates/management/commands/init_ca.py.
--   Views: control_plane/delegates/views.py and celery_client.py, a view being a function from the
--     request and the tables to the response and the tables. Views.Registration.Race cuts a
--     registration after the query of its token, as a step relation of two requests; Views.Clients
--     is the cache of broker clients.
--   Http: control_plane/control_plane/urls.py and control_plane/delegates/urls.py, with the method
--     that a view allows and the body that it is given; the uuid converter of Django and the JSON
--     decoder are parameters.
--   Settings: control_plane/control_plane/settings.py, what it reads from the environment.
--   Worker: worker/worker_app/tasks.py and executor.py, as what the worker publishes, the table
--     of its prepared workspaces and its directories. Worker.Stub is run_stub_task,
--     Worker.Directories the calls of os, shutil and tempfile on a table of directories by path.
--   Enrolment: worker/worker_app/registration.py, over the files of CERT_DIR; the API that it calls
--     is an interface, which Enrolment.Served fills with the views.
--   Start: worker/entrypoint.py, worker/worker_app/__init__.py and celery_app.py, and
--     shared/delegate_protocol/redis_client.py, the certificate of a Redis connection.
--   System: several parts together. System.Input follows a workspace from the worker's request to
--     its extraction, System.Files from the control plane's directory to the worker's,
--     System.Created from the request for the execution on, System.Output a task's output to the
--     tables, System.Revocation a revocation through the gateway, System.Restart a restart to the
--     agent's containers, System.Start the first start of a worker, System.Access what keeps the
--     Redis users and the table of delegates together, and System.Orphan a registration that
--     crashes between the two.
--   Gateway: control_plane/delegates/management/commands/restart_gateway.py, the websocket handlers
--     cut at their awaits; Gateway.Steps is the step relation in which they interleave, and
--     Gateway.Control the HTTP endpoint.
--   Agent: agent_manager/agent_manager.py, as what the agent does in its sessions.
--   Samples: a toy platform, file system, cryptography and Redis, on which the definitions are run.
--
-- Texts are lists of code points, bytes are numbers, times are natural numbers in seconds. A loop
-- that runs until something arrives is a function of the list of what arrives, and ends in a state
-- that says so where the list does. The only fuel is that of range_from, the length of the
-- content: a positive step leaves no more items than that.
--
-- Not modelled: printed lines; the waits before a reconnection to Redis; TLS contexts; the fixed
-- options of Django and Celery, the admin site and the migrations; links, modes and times of files,
-- directories that lie in one another, and what an extraction or a copy that raises has left.
-- Writes to files and tables and XADD are taken to succeed; a request to a view is handled as one
-- step, except where two registrations are made to interleave.
pub mod Archive
pub mod Http
pub mod Settings
pub mod Base
pub mod Platform
pub mod Streams
pub mod Transfer
pub mod Workspace
pub mod Models
pub mod Files
pub mod Dispatcher
pub mod Acl
pub mod Ca
pub mod Views
pub mod Worker
pub mod Enrolment
pub mod Start
pub mod System
pub mod Gateway
pub mod Agent
pub mod Samples
