-- ===== src/Lib.antt =====
-- A model of sshw, a command line that runs commands and moves files on registered servers over
-- SSH, under a policy, with passwords in a credential store. The program is a shell around these
-- parts, each a module here:
--
-- * Errors (src/error.rs, and `classify_error` of src/output.rs): an error is the chain of its
--   layers; it is classified by typed kinds first, then by the text and the library errors.
-- * Policy (src/policy.rs): rules for commands, paths and accounts in Policy.Paths and
--   Policy.Commands, their explanation in Policy.Explain, the file and its versions in Policy.File.
-- * PolicyChange (src/cli/policy_cmd.rs, and the paths of src/cli/transfer.rs): the rules that the
--   commands allow and remove add to the policy and take from it; PolicyChange.Handler has the
--   commands around it, which load and save the policy file.
-- * Sandbox (src/sandbox.rs): the authorization layer that the policy sets up.
-- * Safety (src/safety.rs): the rails that ask for --yes; Safety.Shell reads a command as words and
--   separators, Safety.Tokens has the rules on tokens.
-- * Home (src/home.rs): names, the hash behind generated ids, the files of a home, and the keys
--   under which passwords are stored, in Home.Keys.
-- * Config (src/config.rs): servers, accounts and privilege; Config.Migrate has the version 1
--   documents, Config.References the check of credential keys, Config.File the file.
-- * Storage (src/storage.rs): how a state file is read and replaced, and Storage.Download the check
--   of a download's destination.
-- * Access (src/cli.rs, src/cli/transfer.rs, `parent_path` of src/ssh/atomic_upload.rs): the local
--   checks before a command, an upload and a download. They ask Safety, the sandbox and Config.
-- * Credentials (src/credentials/mod.rs, src/credentials/session_store.rs): the interface of a
--   store with its default methods, which ignore the purpose of a password, and the store in memory,
--   which does not. A law on stores has the key of an entry as a parameter: `purpose_key` is that of
--   the store in memory, `shared_key` that of a store with the default methods, as the keyring is.
-- * Accounts (src/cli/account.rs): the commands that change accounts. They change Config in memory,
--   save it through Config.File and Storage, and keep a credential store in step.
-- * Privilege (src/cli/privilege.rs): the commands that set and clear how an account becomes root,
--   with the steps of Accounts for saving and for the store. Privilege.Execution (src/cli.rs) has
--   the command lines of a privileged run and where its password comes from.
-- * Servers (src/cli/server.rs): the commands that change servers, in Servers.Handlers, with the
--   steps of Accounts; Servers.Trust has the one that trusts a host key.
-- * Profile (src/profile.rs): the registry of profiles, with its file in Profile.File, and the choice
--   of the active home.
-- * Ssh (src/ssh/ssh2_client.rs, src/ssh/mod.rs): Ssh.KnownHosts (and src/ssh/known_hosts.rs) reads
--   and writes the known hosts; Ssh.Connection connects, verifies and authenticates in this order;
--   Ssh.Channel and Ssh.Drain read both streams of a command, with a limit; Ssh.Pty drives a
--   terminal and writes the password that its prompt asks for; Ssh.Framing reads the output of su
--   between its markers; Ssh.Transfer copies a file to the server, and Ssh.Atomic
--   (src/ssh/atomic_upload.rs) replaces a file by such a copy.
--
-- Base holds what the others share, Tests the concrete runs. Function names are those of the source;
-- a method of a type is a function on its record, an enum a data type. Where a function of the source
-- is split into several here, the parts stand together. `Result` is `anyhow::Result`, a state that
-- outlives an error is passed beside it, and a callback is a function on such a state.
--
-- Text is a list of code points. A `u32` version is bounded by a test as in the source; the hash
-- wraps at 2 ^ 64. No function runs on fuel. Most loops are recursions on a list or a text. A loop
-- over a channel is a recursion on the list of its turns, each with what the clock, the server and
-- the sink answer in it; at the end of the list the loop still waits, a result of its own, and the
-- theorems on liveness say when it does not.
--
-- Parameters are serde_json with the derived readers and writers (`Json`, `ConfigJson`,
-- `RegistryJson`), Base64 with the laws that its documentation gives (`IsBase64`),
-- `Path::is_absolute`, the answers of the file system and of the prompt, credential stores, libssh2
-- with what a session answers and its table of hosts (`HostTable`), the client that a server command
-- calls (`HostKeyClient`), the lossy reading of bytes as text, the printer of a port, and how a
-- message reads. Messages are kept as their leading texts: the paths, the hints and the redaction
-- that the source adds are left out.
--
-- Not modelled: the keyring of the system, the audit log, the prompt, printing and diagnostics,
-- which are input and output; resolving and retrying a connection, and the staged stream of a
-- download, which are calls of the system and of libssh2; the commands on profiles, and the checks of a
-- policy that only print; the lock on a state file; and the check of a home's directory on disk.
pub mod Base
pub mod Errors
pub mod Policy
pub mod PolicyChange
pub mod Storage
pub mod Sandbox
pub mod Safety
pub mod Home
pub mod Config
pub mod Access
pub mod Credentials
pub mod Accounts
pub mod Profile
pub mod Privilege
pub mod Tests
pub mod Ssh
pub mod Servers
